-- ===== src/AirToAie/BdProgram/Chain.antt =====
-- The chain of the start blocks in the program of a tile, from its head to the end block.
use mlir_air_mirror.Prelude.{
  ℕ, suc, ◌+◌, ◌≤◌, ◌<◌, ◌≡◌, refl, sym, ap, ◌∙◌, arith, none, some, List, [], ◌∷◌, ◌++◌, length,
  get_elem?, set, length-set, length-append, get_elem?-set_self, get_elem?-set_ne,
}
use mathlib.Core.Path.{subst}
use mathlib.Core.List.{append-nil}
use mlir_air_mirror.AirToAie.BdProgram.{
  DmaChannel, DmaCopy, MemBlock, start_bb, end_bb, bd_blocks, Program, channel_blocks, successor,
  with_successor, add_channel, add_channels,
}
use mlir_air_mirror.AirToAie.BdProgram.Ring.{
  IsRing, Stands, Stands-IsRing, append_left, append_right, length-bd_blocks,
}

abbrev pub Schedule : Type 0
Schedule = List (DmaChannel × List DmaCopy)

-- Who follows the chain of the body from the block i on comes to a start block for each channel of the
-- list in turn, behind each of which stands the ring of the channel's copies, and then to an end block.
pub data Visits (body : List MemBlock) : ℕ → Schedule → Type 0 where
  finish : (i : ℕ) → get_elem? body i ≡ some end_bb → Visits body i []
  start :
      (i chain : ℕ) {ch : DmaChannel} {copies : List DmaCopy} {rest : Schedule}
      → get_elem? body i ≡ some (start_bb ch (i + 1) chain)
      → IsRing body ch.direction (i + 1) copies
      → Visits body chain rest
      → Visits body i ((ch, copies) ∷ rest)

-- The same behind the block h, with the blocks of the copies.
data Tail (body : List MemBlock) (h : ℕ) : ℕ → Schedule → Type 0 where
  tail_end : (i : ℕ) → h < i → i < length body → get_elem? body i ≡ some end_bb → Tail body h i []
  tail_start :
      (i chain : ℕ) {ch : DmaChannel} {copies : List DmaCopy} {rest : Schedule}
      → h < i
      → i + 1 + length copies ≤ length body
      → 0 < length copies
      → get_elem? body i ≡ some (start_bb ch (i + 1) chain)
      → Stands body ch.direction (i + 1) copies
      → Tail body h chain rest
      → Tail body h i ((ch, copies) ∷ rest)

Tail-Visits : {body : List MemBlock} {h i : ℕ} {xs : Schedule} → Tail body h i xs → Visits body i xs
Tail-Visits (tail_end i a b e) = finish i e
Tail-Visits {body} (tail_start i chain {ch} {copies} a b n e s t) =
    start i chain e (Stands-IsRing body ch.direction (i + 1) copies n s) (Tail-Visits t)

-- The blocks behind the head stay when it changes and blocks are added.
kept :
    (body more : List MemBlock) (h : ℕ) (v : MemBlock) (j : ℕ)
    → h < j
    → j < length body
    → get_elem? (set body h v ++ more) j ≡ get_elem? body j
kept body more h v j a b =
    append_left (set body h v) more j (omega (arith, b, length-set body h v))
    ∙ get_elem?-set_ne body v (λ e. omega (arith, a, e))

Tail-kept :
    (body more : List MemBlock) (h : ℕ) (v : MemBlock) {i : ℕ} {xs : Schedule}
    → Tail body h i xs
    → Tail (set body h v ++ more) h i xs
Tail-kept body more h v (tail_end i a b e) =
    tail_end i a (omega (arith, b, length-append (set body h v) more, length-set body h v))
      (kept body more h v i a b ∙ e)
Tail-kept body more h v (tail_start i chain {ch} {copies} a b n e s t) =
    tail_start i chain a (omega (arith, b, length-append (set body h v) more, length-set body h v))
      n (kept body more h v i a (omega (arith, b)) ∙ e)
      (λ j l. kept body more h v (i + 1 + j) (omega (arith, a)) (omega (arith, b, l)) ∙ s j l)
      (Tail-kept body more h v t)

-- The head is the start block of the channel, and the chain goes on behind it.
record Headed (body : List MemBlock) (h : ℕ) (ch : DmaChannel) (copies : List DmaCopy)
    (xs : Schedule) : Type 0 where
  chain : ℕ
  start_block : get_elem? body h ≡ some (start_bb ch (h + 1) chain)
  inside : h + 1 + length copies ≤ length body
  some_copy : 0 < length copies
  stands : Stands body ch.direction (h + 1) copies
  tail : Tail body h chain xs

Headed-Visits :
    {body : List MemBlock} {h : ℕ} {ch : DmaChannel} {copies : List DmaCopy} {xs : Schedule}
    → Headed body h ch copies xs
    → Visits body h ((ch, copies) ∷ xs)
Headed-Visits {body} {h} {ch} {copies} p =
    start h p.chain p.start_block
      (Stands-IsRing body ch.direction (h + 1) copies p.some_copy p.stands) (Tail-Visits p.tail)

-- The blocks of a channel behind `pre`, which is as long as the body.
module _ (pre body more : List MemBlock) (ch : DmaChannel) (copies : List DmaCopy) (chain : ℕ)
    (same : length pre ≡ length body) where
  blocks_start :
      get_elem? (pre ++ (channel_blocks body ch copies chain ++ more)) (length body)
      ≡ some (start_bb ch (length body + 1) chain)
  blocks_start =
      append_right pre (channel_blocks body ch copies chain ++ more) 0 (length body)
        (omega (arith, same))

  blocks-Stands :
      Stands
        (pre ++ (channel_blocks body ch copies chain ++ more))
        ch.direction
        (length body + 1)
        copies
  blocks-Stands j l =
      append_right pre (channel_blocks body ch copies chain ++ more) (suc j) (length body + 1 + j)
        (omega (arith, same))
      ∙ append_left (bd_blocks ch.direction (length body + 1) (length body + 1) copies) more j (
          omega
            (arith, l, length-bd_blocks ch.direction (length body + 1) (length body + 1) copies))

  length-blocks :
      length (pre ++ (channel_blocks body ch copies chain ++ more))
      ≡ length body + 1 + length copies + length more
  length-blocks = omega (
    arith,
    same,
    length-append pre (channel_blocks body ch copies chain ++ more),
    length-append (channel_blocks body ch copies chain) more,
    length-bd_blocks ch.direction (length body + 1) (length body + 1) copies,
  )

-- A round of the loop puts the start block of its channel right behind the head.
add_channel-Headed :
    (body : List MemBlock) (h : ℕ) (ch ch' : DmaChannel) (copies copies' : List DmaCopy)
    (xs : Schedule)
    → 0 < length copies'
    → Headed body h ch copies xs
    → Headed
        (add_channel (record { body = body; channel_head = some h }) ch' copies' (some h)).body
        h
        ch
        copies
        ((ch', copies') ∷ xs)
add_channel-Headed body h ch ch' copies copies' xs n p =
    let chain' : ℕ = successor (get_elem? body h) in
    let v : MemBlock = with_successor (get_elem? body h) (length body) in
    let more : List MemBlock = channel_blocks body ch' copies' chain' ++ [] in
    let same : length (set body h v) ≡ length body = length-set body h v in
    let size = length-blocks (set body h v) body [] ch' copies' chain' same in
    subst (λ bs. Headed (set body h v ++ bs) h ch copies ((ch', copies') ∷ xs))
      (append-nil (channel_blocks body ch' copies' chain'))
      (record {
        chain = length body;
        start_block =
            append_left (set body h v) more h (omega (arith, same, p.inside))
            ∙ get_elem?-set_self body h v (omega (arith, p.inside))
            ∙ ap (λ o. some (with_successor o (length body))) p.start_block;
        inside = omega (arith, p.inside, size);
        some_copy = p.some_copy;
        stands = λ j l.
            kept body more h v (h + 1 + j) (omega arith) (omega (arith, p.inside, l))
            ∙ p.stands j l;
        tail =
            tail_start (length body) chain' (omega (arith, p.inside)) (omega (arith, size)) n
              (blocks_start (set body h v) body [] ch' copies' chain' same)
              (blocks-Stands (set body h v) body [] ch' copies' chain' same)
              (subst (λ k. Tail (set body h v ++ more) h k xs) (sym (ap successor p.start_block))
                (Tail-kept body more h v p.tail));
      })

-- No channel of the schedule is without a copy.
abbrev pub AllCopied : Schedule → Type 0
AllCopied [] = Unit
AllCopied ((ch, copies) ∷ rest) = (0 < length copies) × AllCopied rest

-- The first list from its end, and then the second.
abbrev pub reverse_onto : Schedule → Schedule → Schedule
reverse_onto [] ys = ys
reverse_onto (x ∷ xs) ys = reverse_onto xs (x ∷ ys)

add_channels-Headed :
    (more : Schedule) (body : List MemBlock) (h : ℕ) (ch : DmaChannel) (copies : List DmaCopy)
    (xs : Schedule)
    → AllCopied more
    → Headed body h ch copies xs
    → ((add_channels (record { body = body; channel_head = some h }) more).channel_head ≡ some h)
      × Headed
          (add_channels (record { body = body; channel_head = some h }) more).body
          h
          ch
          copies
          (reverse_onto more xs)
unfolding add_channels
add_channels-Headed [] body h ch copies xs all p = (refl, p)
add_channels-Headed ((ch', copies') ∷ more) body h ch copies xs all p =
    add_channels-Headed more
      (add_channel (record { body = body; channel_head = some h }) ch' copies' (some h)).body h ch
      copies ((ch', copies') ∷ xs) all.1
      (add_channel-Headed body h ch ch' copies copies' xs all.0 p)

first_channel-Headed :
    (ch : DmaChannel) (copies : List DmaCopy)
    → 0 < length copies
    → Headed
        (add_channel (record { body = []; channel_head = none }) ch copies none).body
        0
        ch
        copies
        []
first_channel-Headed ch copies n =
    let size = length-blocks [] [] (end_bb ∷ []) ch copies (1 + length copies) refl in
    record {
      chain = 1 + length copies;
      start_block = refl;
      inside = omega (arith, size);
      some_copy = n;
      stands = blocks-Stands [] [] (end_bb ∷ []) ch copies (1 + length copies) refl;
      tail = tail_end (1 + length copies) (omega arith) (omega (arith, size)) (
          append_right (channel_blocks [] ch copies (1 + length copies)) (end_bb ∷ []) 0
            (1 + length copies) (omega (arith, length-bd_blocks ch.direction 1 1 copies)));
    }

-- The chain from the head: the first channel of the schedule, the later ones from the last on, the end.
abbrev pub Chained : Program → Schedule → Type 0
Chained p [] = p.channel_head ≡ none
Chained p (x ∷ xs) = (h : ℕ) × (p.channel_head ≡ some h) × Visits p.body h (x ∷ reverse_onto xs [])

pub add_channels-Chained :
    (copies : Schedule)
    → AllCopied copies
    → Chained (add_channels (record { body = []; channel_head = none }) copies) copies
unfolding add_channels
add_channels-Chained [] all = refl
add_channels-Chained ((ch, copies) ∷ xs) all =
    let r =
      add_channels-Headed xs
        (add_channel (record { body = []; channel_head = none }) ch copies none).body 0 ch copies []
        all.1 (first_channel-Headed ch copies all.0) in
    (0, r.0, Headed-Visits r.1)
