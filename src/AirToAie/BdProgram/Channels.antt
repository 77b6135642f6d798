-- ===== src/AirToAie/BdProgram/Channels.antt =====
-- The program of a tile has a ring for each of its channels.
use mathlib.Core.Path.{subst}
use mathlib.Core.List.{append-nil}
use mathlib.Core.Bool.{Bool, true≢false}
use mlir_air_mirror.Prelude.{
  ℕ, zero, suc, ◌+◌, ◌≤◌, ◌<◌, ◌≡◌, ◌≢◌, inl, inr, refl, sym, ap, ◌∙◌, arith, Option, none, some,
  List, [], ◌∷◌, ◌++◌, length, get_elem?, set, length-set, length-append, get_elem?-set_self,
  get_elem?-set_ne, ◌==◌, ==_iff, true, false, Bool-cases,
}
use mlir_air_mirror.AirToAie.BdProgram.{
  Direction, DmaChannel, DmaCopy, MemBlock, start_bb, bd, end_bb, bd_blocks, Program,
  channel_blocks, successor, with_successor, add_channel, add_channels, bd_program,
}
use mlir_air_mirror.AirToAie.BdProgram.Chain.{AllCopied, Chained, add_channels-Chained}
use mlir_air_mirror.AirToAie.BdProgram.Ring.{
  IsRing, Stands, Stands-IsRing, append_left, append_right, length-bd_blocks,
}

-- A start block of the channel whose first descriptor is the next block, and the copies behind it.
pub record HasStart (body : List MemBlock) (ch : DmaChannel) (copies : List DmaCopy) : Type 0 where
  pub index : ℕ
  pub chain : ℕ
  pub start : get_elem? body index ≡ some (start_bb ch (index + 1) chain)
  pub inside : index + 1 + length copies ≤ length body
  pub stands : Stands body ch.direction (index + 1) copies

-- The head of the chain is a start block.
abbrev HeadStarts : List MemBlock → Option ℕ → Type 0
HeadStarts body none = Unit
HeadStarts body (some h) =
    (ch : DmaChannel) × (f : ℕ) × (chain : ℕ) × (get_elem? body h ≡ some (start_bb ch f chain))
    × (h < length body)

-- A body with more blocks behind it.
HasStart-append :
    (body more : List MemBlock) (ch : DmaChannel) (copies : List DmaCopy)
    → HasStart body ch copies
    → HasStart (body ++ more) ch copies
HasStart-append body more ch copies s = record {
  index = s.index;
  chain = s.chain;
  start = append_left body more s.index (omega (arith, s.inside)) ∙ s.start;
  inside = omega (arith, s.inside, length-append body more);
  stands =
      λ j h. append_left body more (s.index + 1 + j) (omega (arith, s.inside, h)) ∙ s.stands j h;
}

abbrev is_bd : Option MemBlock → Bool
is_bd (some (bd b)) = true
is_bd (some (start_bb ch f chain)) = false
is_bd (some end_bb) = false
is_bd none = false

bd_blocks-is_bd :
    (d : Direction) (first here : ℕ) (cs : List DmaCopy) (j : ℕ)
    → j < length cs
    → is_bd (get_elem? (bd_blocks d first here cs) j) ≡ true
unfolding bd_blocks
bd_blocks-is_bd d first here [] j h = absurd (omega (arith, h))
bd_blocks-is_bd d first here (c ∷ []) zero h = refl
bd_blocks-is_bd d first here (c ∷ []) (suc j) h = absurd (omega (arith, h))
bd_blocks-is_bd d first here (c ∷ c' ∷ cs) zero h = refl
bd_blocks-is_bd d first here (c ∷ c' ∷ cs) (suc j) h =
    bd_blocks-is_bd d first (here + 1) (c' ∷ cs) j (omega (arith, h))

eq_ne : (a b : ℕ) → (a == b) ≡ false → a ≢ b
eq_ne a b e p = true≢false (sym ((==_iff a b).1 p) ∙ e)

-- A new end of a start block's chain.
HasStart-set :
    (body : List MemBlock) (h b : ℕ) (ch : DmaChannel) (copies : List DmaCopy)
    → HeadStarts body (some h)
    → HasStart body ch copies
    → HasStart (set body h (with_successor (get_elem? body h) b)) ch copies
HasStart-set body h b ch copies head s = elim (Bool-cases (h == s.index)) [
  | inl e ↦
      let same : h ≡ s.index = (==_iff h s.index).0 e in
      record {
        index = s.index;
        chain = b;
        start =
            ap (get_elem? (set body h v)) (sym same)
            ∙ get_elem?-set_self body h v (head.4)
            ∙ ap (λ i. some (with_successor (get_elem? body i) b)) same
            ∙ ap (λ o. some (with_successor o b)) s.start;
        inside = inside;
        stands = stands;
      }
  | inr e ↦ record {
    index = s.index;
    chain = s.chain;
    start = get_elem?-set_ne body v (eq_ne h s.index e) ∙ s.start;
    inside = inside;
    stands = stands;
  }
]
  where
    v : MemBlock
    v = with_successor (get_elem? body h) b

    inside : s.index + 1 + length copies ≤ length (set body h v)
    inside = omega (arith, s.inside, length-set body h v)

    stands : Stands (set body h v) ch.direction (s.index + 1) copies
    stands j l =
        get_elem?-set_ne body v (λ same. true≢false (
          sym (bd_blocks-is_bd ch.direction (s.index + 1) (s.index + 1) copies j l)
          ∙ ap is_bd (sym (s.stands j l))
          ∙ ap (λ i. is_bd (get_elem? body i)) (sym same)
          ∙ ap is_bd (head.3)))
        ∙ s.stands j l

-- The blocks of a channel behind as many blocks as the body has.
channel_blocks-HasStart :
    (pre post body : List MemBlock) (ch : DmaChannel) (copies : List DmaCopy) (chain : ℕ)
    → length pre ≡ length body
    → HasStart (pre ++ (channel_blocks body ch copies chain ++ post)) ch copies
channel_blocks-HasStart pre post body ch copies chain e =
    let bds : List MemBlock = bd_blocks ch.direction (length body + 1) (length body + 1) copies in
    let n : length bds ≡ length copies =
      length-bd_blocks ch.direction (length body + 1) (length body + 1) copies in
    record {
      index = length body;
      chain = chain;
      start =
          append_right pre (channel_blocks body ch copies chain ++ post) 0 (length body)
            (omega (arith, e));
      inside = omega (
        arith,
        e,
        n,
        length-append pre (channel_blocks body ch copies chain ++ post),
        length-append (channel_blocks body ch copies chain) post,
      );
      stands = λ j h.
          append_right pre (channel_blocks body ch copies chain ++ post) (suc j)
            (length body + 1 + j) (omega (arith, e))
          ∙ append_left bds post j (omega (arith, h, n));
    }

-- Every entry of a list has its start block and its descriptors.
pub data AllStart (body : List MemBlock) : List (DmaChannel × List DmaCopy) → Type 0 where
  nothing : AllStart body []
  also :
      {ch : DmaChannel} {copies : List DmaCopy} {rest : List (DmaChannel × List DmaCopy)}
      → HasStart body ch copies
      → AllStart body rest
      → AllStart body ((ch, copies) ∷ rest)

AllStart-map :
    {body body' : List MemBlock} (xs : List (DmaChannel × List DmaCopy))
    → ((ch : DmaChannel) (copies : List DmaCopy)
        → HasStart body ch copies
        → HasStart body' ch copies)
    → AllStart body xs
    → AllStart body' xs
AllStart-map [] f nothing = nothing
AllStart-map (x ∷ xs) f (also s a) = also (f _ _ s) (AllStart-map xs f a)

-- What a round keeps, and what it adds.
record Added (p q : Program) (ch : DmaChannel) (copies : List DmaCopy) : Type 0 where
  pub kept :
      (ch' : DmaChannel) (copies' : List DmaCopy)
      → HasStart p.body ch' copies'
      → HasStart q.body ch' copies'
  pub new : HasStart q.body ch copies
  pub head : HeadStarts q.body q.channel_head

add_channel-Added :
    (p : Program) (ch : DmaChannel) (copies : List DmaCopy) (o : Option ℕ)
    → HeadStarts p.body o
    → Added p (add_channel p ch copies o) ch copies
add_channel-Added p ch copies none h =
    let last : ℕ = length p.body + 1 + length copies in
    let new : HasStart (p.body ++ (channel_blocks p.body ch copies last ++ (end_bb ∷ []))) ch
        copies =
      channel_blocks-HasStart p.body (end_bb ∷ []) p.body ch copies last refl in
    record {
      kept = λ ch' copies' s.
          HasStart-append p.body (channel_blocks p.body ch copies last ++ (end_bb ∷ [])) ch' copies'
            s;
      new = new;
      head = (
        ch,
        length p.body + 1,
        last,
        append_right p.body (channel_blocks p.body ch copies last ++ (end_bb ∷ [])) 0
            (length p.body) (omega arith),
        omega (arith, length-append p.body (channel_blocks p.body ch copies last ++ (end_bb ∷ []))),
      );
    }
add_channel-Added p ch copies (some i) h =
    let chain : ℕ = successor (get_elem? p.body i) in
    let v : MemBlock = with_successor (get_elem? p.body i) (length p.body) in
    let pre : List MemBlock = set p.body i v in
    let n : length pre ≡ length p.body = length-set p.body i v in
    record {
      kept = λ ch' copies' s.
          HasStart-append pre (channel_blocks p.body ch copies chain) ch' copies'
            (HasStart-set p.body i (length p.body) ch' copies' h s);
      new =
          subst (λ bs. HasStart (pre ++ bs) ch copies)
            (append-nil (channel_blocks p.body ch copies chain))
            (channel_blocks-HasStart pre [] p.body ch copies chain n);
      head = (
        h.0,
        h.1,
        length p.body,
        append_left pre (channel_blocks p.body ch copies chain) i (omega (arith, n, h.4))
            ∙ get_elem?-set_self p.body i v (h.4)
            ∙ ap (λ o. some (with_successor o (length p.body))) (h.3),
        omega (arith, n, h.4, length-append pre (channel_blocks p.body ch copies chain)),
      );
    }

add_channels-AllStart :
    (xs done : List (DmaChannel × List DmaCopy)) (p : Program)
    → HeadStarts p.body p.channel_head
    → AllStart p.body done
    → AllStart (add_channels p xs).body done × AllStart (add_channels p xs).body xs
unfolding add_channels
add_channels-AllStart [] done p h a = (a, nothing)
add_channels-AllStart ((ch, copies) ∷ xs) done p h a =
    let s = add_channel-Added p ch copies p.channel_head h in
    let r =
      add_channels-AllStart xs ((ch, copies) ∷ done) (add_channel p ch copies p.channel_head) s.head
        (also s.new (AllStart-map done s.kept a)) in
    split (add_channels (add_channel p ch copies p.channel_head) xs).body r
  where
    split :
        (body : List MemBlock)
        → AllStart body ((ch, copies) ∷ done) × AllStart body xs
        → AllStart body done × AllStart body ((ch, copies) ∷ xs)
    split body (also s b, r) = (b, also s r)

-- A channel is started at some block, with the next block as its first descriptor, and the descriptors
-- from there on are a ring through its copies.
pub record HasRing (body : List MemBlock) (ch : DmaChannel) (copies : List DmaCopy) : Type 0 where
  pub index : ℕ
  pub chain : ℕ
  pub start : get_elem? body index ≡ some (start_bb ch (index + 1) chain)
  pub ring : IsRing body ch.direction (index + 1) copies

abbrev pub AllRings : List MemBlock → List (DmaChannel × List DmaCopy) → Type 0
AllRings body [] = Unit
AllRings body ((ch, copies) ∷ rest) = HasRing body ch copies × AllRings body rest

AllStart-AllRings :
    (body : List MemBlock) (xs : List (DmaChannel × List DmaCopy))
    → AllCopied xs
    → AllStart body xs
    → AllRings body xs
AllStart-AllRings body [] h nothing = tt
AllStart-AllRings body ((ch, copies) ∷ xs) h (also s a) = (
  record {
    index = s.index;
    chain = s.chain;
    start = s.start;
    ring = Stands-IsRing body ch.direction (s.index + 1) copies h.0 s.stands;
  },
  AllStart-AllRings body xs h.1 a,
)

-- In the program of a tile each channel of the schedule that has copies is started with the block
-- behind its start as the first descriptor. From there on the descriptors are those of its copies in
-- their order, each with its copy's length, and after the last comes the first again. Around each, the
-- lock goes from the value that the core releases to the value that the core acquires. The chain from
-- the head comes through the start blocks of all channels, that of the first channel and then those of
-- the others from the last one on, and ends at the end block.
pub bd_program-AllRings :
    (copies : List (DmaChannel × List DmaCopy))
    → AllCopied copies
    → AllRings (bd_program copies).body copies × Chained (bd_program copies) copies
unfolding bd_program
bd_program-AllRings copies h = (
  AllStart-AllRings (bd_program copies).body copies h
      ((add_channels-AllStart copies [] (record { body = []; channel_head = none }) tt nothing).1),
  add_channels-Chained copies h,
)
