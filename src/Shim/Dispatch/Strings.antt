-- ===== src/Shim/Dispatch/Strings.antt =====
-- What `read_c_string` reads.
use coracle.Prelude.{
  ℕ, zero, suc, ◌+◌, ◌<◌, ◌≡◌, ◌↔◌, refl, sym, subst, ap, ◌∙◌, arith, List, [], ◌∷◌, ◌++◌, Result,
  ok, err, append_nil, append_assoc, length, wrapping_add,
}
use coracle.Interp.Memory.{Memory, AccessFault, read_uint}
use coracle.Shim.Structs.{to_fault}
use coracle.Shim.Host.{Errno}
use coracle.Shim.Dispatch.{read_from, read_c_string, max_path}

ok_injective : (x y : List ℕ) → (let r : Result Errno (List ℕ) = ok x in r ≡ ok y) → x ≡ y
ok_injective x y h = ground arith

module _ {M : Type 0} (mem : Memory M) where
  -- The memory holds a text from `offset` past the address on, with the byte that ends it.
  abbrev pub HoldsText : M → ℕ → ℕ → List ℕ → Type 0
  HoldsText memory address offset [] = read_uint mem memory (wrapping_add address offset) 1 ≡ ok 0
  HoldsText memory address offset (byte ∷ text) =
      (read_uint mem memory (wrapping_add address offset) 1 ≡ ok byte)
      × (0 < byte)
      × HoldsText memory address (offset + 1) text

  read_from_complete :
      (memory : M) (address left offset : ℕ) (text bytes : List ℕ)
      → HoldsText memory address offset text
      → length text < left
      → read_from mem memory address left offset bytes ≡ ok (bytes ++ text)
  unfolding read_from
  read_from_complete memory address zero offset text bytes h k = absurd (omega arith)
  read_from_complete memory address (suc left) offset [] bytes h k =
      rw (read_from, h) (ap ok (sym (append_nil bytes)))
  read_from_complete memory address (suc left) offset (zero ∷ text) bytes (h, pos, rest) k =
      absurd (omega arith)
  read_from_complete memory address (suc left) offset (suc byte ∷ text) bytes (h, pos, rest) k =
      rw (read_from, h)
        (read_from_complete memory address left (offset + 1) text (bytes ++ suc byte ∷ []) rest
            (omega arith)
          ∙ ap ok (append_assoc bytes (suc byte ∷ []) text))

  read_from_sound :
      (memory : M) (address left offset : ℕ) (bytes out : List ℕ)
      → read_from mem memory address left offset bytes ≡ ok out
      → (text : List ℕ) × (out ≡ bytes ++ text)
        × HoldsText memory address offset text
        × (length text < left)
  unfolding read_from
  read_from_sound memory address zero offset bytes out h = ground arith
  read_from_sound memory address (suc left) offset bytes out h =
      go (read_uint mem memory (wrapping_add address offset) 1) refl h
        (λ byte. read_from_sound memory address left (offset + 1) (bytes ++ suc byte ∷ []) out)
    where
      Found : ℕ → ℕ → List ℕ → Type 0
      Found bound from start =
          (text : List ℕ) × (out ≡ start ++ text)
          × HoldsText memory address from text
          × (length text < bound)

      go :
          (r : Result AccessFault ℕ)
          → read_uint mem memory (wrapping_add address offset) 1 ≡ r
          → (elim (to_fault r) [
            | err e ↦ err e
            | ok zero ↦ ok bytes
            | ok (suc byte) ↦
                read_from mem memory address left (offset + 1) (bytes ++ suc byte ∷ [])
          ])
            ≡ ok out
          → ((byte : ℕ)
              → read_from mem memory address left (offset + 1) (bytes ++ suc byte ∷ []) ≡ ok out
              → Found left (offset + 1) (bytes ++ suc byte ∷ []))
          → Found (suc left) offset bytes
      go (err fault) e h more = ground arith
      go (ok zero) e h more =
          ([], ok_injective out bytes (sym h) ∙ sym (append_nil bytes), e, omega arith)
      go (ok (suc byte)) e h more =
          let (text, same, holds, short) = more byte h in
          (
            suc byte ∷ text,
            same ∙ append_assoc bytes (suc byte ∷ []) text,
            (e, omega arith, holds),
            omega (arith, short),
          )

  -- `read_c_string` gives exactly the text of fewer than 4096 bytes, none of them zero, that the memory
  -- holds at the address, each byte readable and a zero byte after the last.
  pub read_c_string_iff :
      (memory : M) (address : ℕ) (text : List ℕ)
      → read_c_string mem memory address ≡ ok text
        ↔ (HoldsText memory address 0 text × (length text < max_path))
  unfolding read_c_string
  read_c_string_iff memory address text = (
    λ h.
        let (found, same, holds, short) = read_from_sound memory address max_path 0 [] text h in
        subst (λ t. HoldsText memory address 0 t × (length t < max_path)) (sym same) (holds, short),
    λ (holds, short). read_from_complete memory address max_path 0 text [] holds short,
  )
