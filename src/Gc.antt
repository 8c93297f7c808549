-- ===== src/Gc.antt =====
-- The minor collection in src/swarmrt_gc.c (`bitmap_alloc`, `bitmap_set`, `sw_gc_minor`). The heap is
-- the list of its words; a bitmap is the list of the bits of its words; a write outside the bitmap is
-- a fault. The roots are the payloads of the messages in the private queue.
pub mod Slide
pub mod Compact
use swarmrt.Base.{
  ℕ, zero, suc, ◌+◌, ◌-◌, ◌*◌, ◌/◌, List, [], ◌∷◌, Bool, true, false, not, ◌&&◌, Option, none, some,
  if◌then◌else◌, ◌==◌, ltb, leb, length, get_or, set, replicate,
}

-- `sw_heap_t`: the address of `start` in bytes, the words from `start` to `end`, and the number of
-- words from `start` to `top`.
pub record Heap : Type 0 where
  pub start : ℕ
  pub words : List ℕ
  pub top : ℕ

abbrev pub in_heap : Heap → ℕ → Bool
in_heap h p = leb h.start p && ltb p (h.start + 8 * length h.words)

-- The difference of two pointers to words.
abbrev pub index : Heap → ℕ → ℕ
index h p = (p - h.start) / 8

-- Whether a payload is marked.
abbrev pub is_root : Heap → ℕ → Bool
is_root h p = not (p == 0) && in_heap h p

-- `bitmap_alloc`: GC_BITMAP_WORDS words of 64 bits.
abbrev pub bitmap_alloc : ℕ → List Bool
bitmap_alloc n = replicate ((n + 63) / 64 * 64) false

-- The loop over the messages; none for a `bitmap_set` outside the bitmap.
unfoldable pub mark : Heap → List ℕ → List Bool → Option (List Bool)
mark h [] bits = some bits
mark h (p ∷ ps) bits =
    let rest = mark h ps (if is_root h p then set bits (index h p) true else bits) in
    if is_root h p && leb (length bits) (index h p) then none else rest

-- The loop that counts the marked words, `n` of them from `i` on.
unfoldable pub count_live : List Bool → ℕ → ℕ → ℕ
count_live bits zero i = 0
count_live bits (suc n) i = (if get_or bits i false then 1 else 0) + count_live bits n (i + 1)

-- The loop that slides the marked words down.
unfoldable pub compact : List Bool → ℕ → ℕ → ℕ → List ℕ → ℕ × List ℕ
compact bits zero src dst ws = (dst, ws)
compact bits (suc n) src dst ws =
    let live = get_or bits src false in
    compact bits n (src + 1) (if live then dst + 1 else dst)
      (if live && not (dst == src) then set ws dst (get_or ws src 0) else ws)

-- The words that are reclaimed, and the heap, which is compacted if they are more than a quarter.
unfoldable pub collect : List Bool → Heap → ℕ × Heap
unfolding count_live compact
collect bits h =
    let reclaimed = h.top - count_live bits h.top 0 in
    let r = compact bits h.top 0 0 h.words in
    (reclaimed, if ltb (h.top / 4) reclaimed then record h { top = r.0; words = r.1 } else h)

-- `sw_gc_minor` with the payloads of the queue.
unfoldable pub minor : List ℕ → Heap → Option (ℕ × Heap)
unfolding mark collect
minor ps h =
    if h.top == 0
    then some (0, h)
    else elim (mark h ps (bitmap_alloc h.top)) [ none ↦ none | some bits ↦ some (collect bits h) ]
