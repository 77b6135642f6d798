-- ===== src/Runner/Depend.antt =====
-- The dependencies of a vertex in mlir/lib/Util/Runner.cpp. `buildVertexDependencyList` collects
-- pointers to nodes of its copy of the graph; the list here holds the values of these nodes.
use mlir_air_mirror.Prelude.{ℕ, Bool, true, false, ◌&&◌, ◌||◌, not, ◌==◌, List, [], ◌∷◌, ◌++◌, map}
use mlir_air_mirror.Runner.State.{Node, is_started, is_done, Op, Graph, World}

pub data Token : Type 0 where
  sym : Token
  ssa : Token
  ssa_loop_yield : Token

abbrev pub Dependence : Type 0
Dependence = Node × Token

-- `checkEachDependenceFulfillment`.
unfoldable pub check_each_dependence_fulfillment : Dependence → Node → ℕ → Bool
check_each_dependence_fulfillment (d, Token.sym) node time = not (d.token_count == 0)
check_each_dependence_fulfillment (d, Token.ssa) node time = is_started d && is_done d time
check_each_dependence_fulfillment (d, Token.ssa_loop_yield) node time =
    (is_started d && is_done d time) && not (node.token_count == 0)

-- The loops of `checkAllDependenciesFulfillment`, from the value they have come to.
unfoldable pub check_blocking : Bool → List Dependence → Node → ℕ → Bool
unfolding check_each_dependence_fulfillment
check_blocking fulfilled [] node time = fulfilled
check_blocking fulfilled (d ∷ ds) node time =
    check_blocking (fulfilled && check_each_dependence_fulfillment d node time) ds node time

unfoldable pub check_non_blocking : Bool → List Dependence → Node → ℕ → Bool
unfolding check_each_dependence_fulfillment
check_non_blocking fulfilled [] node time = fulfilled
check_non_blocking fulfilled (d ∷ ds) node time =
    check_non_blocking (fulfilled || check_each_dependence_fulfillment d node time) ds node time

unfoldable pub check_all_dependencies_fulfillment : List Dependence → Node → ℕ → Bool → Bool
unfolding check_blocking check_non_blocking
check_all_dependencies_fulfillment deps node time true = check_blocking true deps node time
check_all_dependencies_fulfillment deps node time false = check_non_blocking false deps node time

module _ (graphs : ℕ → Graph) (w : World) (g : ℕ) where
  abbrev pub dependence_on : ℕ → Op → Dependence
  dependence_on u (Op.hierarchy sub) = (w.node sub (graphs sub).terminator_vertex, Token.ssa)
  dependence_on u (Op.for_loop loop) = (w.node g u, Token.ssa_loop_yield)
  dependence_on u op = (w.node g u, Token.ssa)

  abbrev pub dependence : ℕ → Dependence
  dependence u = dependence_on u ((graphs g).op u)

  abbrev pub channel_dependence : Op → List Dependence
  channel_dependence (Op.channel_get put_g put_v) = (w.node put_g put_v, Token.sym) ∷ []
  channel_dependence op = []

  -- `buildVertexDependencyList`. The code takes its graph by value, so that the pointers that it
  -- answers dangle; this is what the nodes held.
  unfoldable pub build_vertex_dependency_list : ℕ → List Dependence
  build_vertex_dependency_list v =
      channel_dependence ((graphs g).op v) ++ map dependence ((graphs g).inv_adjacent v)

  -- `isBlocking`: the operation is not a yield.
  abbrev pub is_blocking : Op → Bool
  is_blocking (Op.loop_yield for_v loop operands) = false
  is_blocking Op.other_yield = false
  is_blocking op = true

  -- The second loop of `processGraph`, on one candidate.
  unfoldable pub dep_fulfilled : ℕ → ℕ → Bool
  unfolding build_vertex_dependency_list check_all_dependencies_fulfillment
  dep_fulfilled time v =
      check_all_dependencies_fulfillment (build_vertex_dependency_list v) (w.node g v) time
        (is_blocking ((graphs g).op v))
