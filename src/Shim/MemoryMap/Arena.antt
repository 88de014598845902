-- ===== src/Shim/MemoryMap/Arena.antt =====
-- The addresses that the heap and the arena hand out.
use coracle.Prelude.{
  ℕ, ◌+◌, ◌%◌, ◌≤◌, ◌<◌, ◌≡◌, ◌⊎◌, refl, sym, ap, subst, ◌∙◌, arith, List, [], ◌∷◌, some, none,
}
use mathlib.Core.List.{Memᴰ}
use coracle.GuestMemory.{page_size}
use coracle.Shim.MemoryMap.{ArenaLayout, MemoryMap, new, set_brk, map}

-- A map that calls of `brk` and `mmap` reach from `new`, with the base and the length of each
-- mapping that was made, the latest first.
pub data Reaches (layout : ArenaLayout) : MemoryMap → List (ℕ × ℕ) → Type 0 where
  start : Reaches layout (new layout) []
  moved :
      (m : MemoryMap) (made : List (ℕ × ℕ)) (requested : ℕ)
      → Reaches layout m made
      → Reaches layout (set_brk m requested).1 made
  mapped :
      (m : MemoryMap) (made : List (ℕ × ℕ)) (length base : ℕ)
      → Reaches layout m made
      → (map m length).0 ≡ some base
      → Reaches layout (map m length).1 ((base, length) ∷ made)
  refused :
      (m : MemoryMap) (made : List (ℕ × ℕ)) (length : ℕ)
      → Reaches layout m made
      → (map m length).0 ≡ none
      → Reaches layout (map m length).1 made

-- Every mapping that was made lies in the arena, on a page boundary, below `top`, and apart from the
-- ones that were made before it.
data IsStacked (layout : ArenaLayout) : ℕ → List (ℕ × ℕ) → Type 0 where
  none_made : (top : ℕ) → IsStacked layout top []
  one_more :
      (top base length : ℕ) (made : List (ℕ × ℕ))
      → base + length ≤ top
      → base % page_size ≡ 0
      → layout.mmap_base ≤ base
      → IsStacked layout base made
      → IsStacked layout top ((base, length) ∷ made)

record IsArena (layout : ArenaLayout) (m : MemoryMap) (made : List (ℕ × ℕ)) : Type 0 where
  same_layout : m.layout ≡ layout
  next_aligned : m.mmap_next % page_size ≡ 0
  next_low : layout.mmap_base ≤ m.mmap_next
  stacked : IsStacked layout m.mmap_next made

map-some :
    (m : MemoryMap) (length base : ℕ)
    → (map m length).0 ≡ some base
    → (base ≡ m.mmap_next)
      × ((map m length).1.layout ≡ m.layout)
      × (0 < length)
      × (base + length ≤ (map m length).1.mmap_next)
      × ((map m length).1.mmap_next ≤ m.layout.mmap_limit)
      × (m.mmap_next % page_size ≡ 0 → (map m length).1.mmap_next % page_size ≡ 0)
unfolding map
map-some m length base h = ground arith

map-none : (m : MemoryMap) (length : ℕ) → (map m length).0 ≡ none → (map m length).1 ≡ m
unfolding map
map-none m length h = ground arith

set_brk-same :
    (m : MemoryMap) (requested : ℕ)
    → ((set_brk m requested).1.layout ≡ m.layout)
      × ((set_brk m requested).1.mmap_next ≡ m.mmap_next)
      × ((set_brk m requested).0 ≡ (set_brk m requested).1.brk)
unfolding set_brk
set_brk-same m requested = ground arith

Reaches-IsArena :
    (layout : ArenaLayout) (m : MemoryMap) (made : List (ℕ × ℕ))
    → layout.mmap_base % page_size ≡ 0
    → Reaches layout m made
    → IsArena layout m made
unfolding new set_brk
Reaches-IsArena layout _ _ h start = record {
  same_layout = refl;
  next_aligned = h;
  next_low = omega arith;
  stacked = none_made layout.mmap_base;
}
Reaches-IsArena layout _ _ h (moved m made requested r) =
    let w = Reaches-IsArena layout m made h r in
    let (a, b, c) = set_brk-same m requested in
    record {
      same_layout = a ∙ w.same_layout;
      next_aligned = omega (arith, b, w.next_aligned);
      next_low = omega (arith, b, w.next_low);
      stacked = subst (λ top. IsStacked layout top made) (sym b) w.stacked;
    }
Reaches-IsArena layout _ _ h (mapped m made length base r e) =
    let w = Reaches-IsArena layout m made h r in
    let (a, b, c, d, f, g) = map-some m length base e in
    record {
      same_layout = b ∙ w.same_layout;
      next_aligned = g w.next_aligned;
      next_low = omega (arith, w.next_low, d, a);
      stacked =
          one_more _ base length made d (omega (arith, a, w.next_aligned))
            (omega (arith, a, w.next_low))
            (subst (λ top. IsStacked layout top made) (sym a) w.stacked);
    }
Reaches-IsArena layout _ _ h (refused m made length r e) =
    subst (λ after. IsArena layout after made) (sym (map-none m length e))
      (Reaches-IsArena layout m made h r)

stacked-below :
    (layout : ArenaLayout) (top base length : ℕ) (made : List (ℕ × ℕ))
    → IsStacked layout top made
    → Memᴰ (base, length) made
    → (base + length ≤ top) × (base % page_size ≡ 0) × (layout.mmap_base ≤ base)
stacked-below layout _ base length _ (none_made top) h = elim h [ ]
stacked-below layout _ base length _ (one_more top b l made fits aligned low below) (Memᴰ.head e) =
    omega (arith, ap (λ p. p.0) e, ap (λ p. p.1) e, fits, aligned, low)
stacked-below layout _ base length _ (one_more top b l made fits aligned low below) (Memᴰ.tail h) =
    let (a, c, d) = stacked-below layout b base length made below h in
    (omega (arith, a, fits), c, d)

-- In a map that `brk` and `mmap` calls reach from one whose arena starts on a page boundary, a call
-- of `mmap` that succeeds gives an address on a page boundary, inside the arena with all the bytes
-- asked for, and past the end of every mapping made before.
pub map-fresh :
    (layout : ArenaLayout) (m : MemoryMap) (made : List (ℕ × ℕ)) (wanted fresh base length : ℕ)
    → layout.mmap_base % page_size ≡ 0
    → Reaches layout m made
    → (map m wanted).0 ≡ some fresh
    → (fresh % page_size ≡ 0)
      × (layout.mmap_base ≤ fresh)
      × (fresh + wanted ≤ layout.mmap_limit)
      × (Memᴰ (base, length) made → base + length ≤ fresh)
map-fresh layout m made wanted fresh base length h r e =
    let w = Reaches-IsArena layout m made h r in
    let (a, b, c, d, f, g) = map-some m wanted fresh e in
    let limit : m.layout.mmap_limit ≡ layout.mmap_limit = ap (λ l. l.mmap_limit) w.same_layout in
    (
      omega (arith, a, w.next_aligned),
      omega (arith, a, w.next_low),
      omega (arith, d, f, limit),
      λ mem. omega (arith, a, (stacked-below layout m.mmap_next base length made w.stacked mem).0),
    )

set_brk-cases :
    (m : MemoryMap) (requested : ℕ)
    → (m.layout.heap_base ≤ requested)
        × (requested ≤ m.layout.heap_limit)
        × ((set_brk m requested).0 ≡ requested)
        × ((set_brk m requested).1.brk ≡ requested)
      ⊎ ((requested < m.layout.heap_base) ⊎ (m.layout.heap_limit < requested))
        × ((set_brk m requested).0 ≡ m.brk)
        × ((set_brk m requested).1 ≡ m)
unfolding set_brk
set_brk-cases m requested = ground arith

map-brk : (m : MemoryMap) (length : ℕ) → (map m length).1.brk ≡ m.brk
unfolding map
map-brk m length = ground arith

brk-bounds :
    (layout : ArenaLayout) (m : MemoryMap) (made : List (ℕ × ℕ))
    → layout.mmap_base % page_size ≡ 0
    → layout.heap_base ≤ layout.heap_limit
    → Reaches layout m made
    → (layout.heap_base ≤ m.brk) × (m.brk ≤ layout.heap_limit)
unfolding new
brk-bounds layout _ _ g h start = omega (arith, h)
brk-bounds layout _ _ g h (moved m made requested r) = ground (
  arith,
  brk-bounds layout m made g h r,
  set_brk-cases m requested,
  (Reaches-IsArena layout m made g r).same_layout,
)
brk-bounds layout _ _ g h (mapped m made length base r e) =
    omega (arith, brk-bounds layout m made g h r, map-brk m length)
brk-bounds layout _ _ g h (refused m made length r e) =
    omega (arith, brk-bounds layout m made g h r, map-brk m length)

-- In a map that calls reach, over a heap window that is not empty and an arena that starts on a page
-- boundary, the break lies in the heap window, both ends included; `brk` moves it exactly when the
-- request lies there too, and else reports the break that was and changes nothing.
pub set_brk-bounds :
    (layout : ArenaLayout) (m : MemoryMap) (made : List (ℕ × ℕ)) (requested : ℕ)
    → layout.mmap_base % page_size ≡ 0
    → layout.heap_base ≤ layout.heap_limit
    → Reaches layout m made
    → (layout.heap_base ≤ m.brk)
      × (m.brk ≤ layout.heap_limit)
      × ((m.layout.heap_base ≤ requested)
            × (requested ≤ m.layout.heap_limit)
            × ((set_brk m requested).0 ≡ requested)
            × ((set_brk m requested).1.brk ≡ requested)
          ⊎ ((requested < m.layout.heap_base) ⊎ (m.layout.heap_limit < requested))
            × ((set_brk m requested).0 ≡ m.brk)
            × ((set_brk m requested).1 ≡ m))
set_brk-bounds layout m made requested g h r =
    let (a, b) = brk-bounds layout m made g h r in (a, b, set_brk-cases m requested)
