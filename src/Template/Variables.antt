-- ===== src/Template/Variables.antt =====
-- include/template_renderer.h: replacing one variable of a template.
use cdragon.Prelude.{
  All-append, ℕ, suc, ◌≡◌, ◌≢◌, refl, ap, true, false, inl, inr, List, [], ◌∷◌, ◌++◌, arith, Bytes,
  Lacks, drop-length_append, starts_with, find_bytes, equal, Option-cases, map, Bool-cases,
  if◌then◌else◌, length, ◌∙◌, All, ◌≤◌, zero, sym, length-append, equal_iff, append_assoc,
}
use cdragon.Prelude.Search.{find_bytes_here, find_bytes_later}
use cdragon.Template.{replace_from, replace_all, placeholder_of}

-- A byte where no match begins is copied.
copies :
    (fuel : ℕ) (p v : Bytes) (b : ℕ) (s : Bytes)
    → starts_with p (b ∷ s) ≡ false
    → replace_from (suc fuel) p v (b ∷ s) ≡ b ∷ replace_from (suc fuel) p v s
unfolding replace_from
copies fuel p v b s e = elim (Option-cases (find_bytes p s)) [
  | inl missing ↦ rw (find_bytes_later p b s e, replace_from) (rw (missing, replace_from))
  | inr (n, found) ↦ rw (find_bytes_later p b s e, replace_from) (rw (found, replace_from))
]

-- A match is replaced.
replaces :
    (fuel : ℕ) (p v s : Bytes)
    → p ≢ []
    → starts_with p (p ++ s) ≡ true
    → replace_from (suc fuel) p v (p ++ s) ≡ v ++ replace_from fuel p v s
unfolding replace_from
replaces fuel [] v s ne e = absurd (ne refl)
replaces fuel (b ∷ p) v s ne e =
    rw (find_bytes_here (b ∷ p) b (p ++ s) e, replace_from)
      (ap (λ u. v ++ replace_from fuel (b ∷ p) v u) (drop-length_append p s))

-- A template as its author sees it.
pub data Part : Type 0 where
  plain var : Bytes → Part

unfoldable pub print : List Part → Bytes
print [] = []
print (plain t ∷ ps) = t ++ print ps
print (var key ∷ ps) = placeholder_of key ++ print ps

-- No brace in a name, and none that opens in a text.
abbrev pub IsKey : Bytes → Type 0
IsKey key = Lacks b'{' key × Lacks b'}' key

abbrev pub IsPart : Part → Type 0
IsPart (plain t) = Lacks b'{' t
IsPart (var key) = IsKey key

abbrev ending : Bytes → Bytes
ending s = 32 ∷ b'}' ∷ b'}' ∷ s

-- A placeholder matches another only if the names are equal.
starts_with-key :
    (k j s : Bytes)
    → Lacks b'}' k
    → Lacks b'}' j
    → starts_with (k ++ ending []) (j ++ ending s) ≡ equal k j
unfolding starts_with equal
starts_with-key [] [] s _ _ = refl
starts_with-key [] (c ∷ []) s _ (p, _) = ground arith
starts_with-key [] (c ∷ d ∷ j) s _ (p, (q, _)) = ground arith
starts_with-key (c ∷ []) [] s (p, _) _ = ground arith
starts_with-key (c ∷ d ∷ k) [] s (p, (q, _)) _ = ground arith
starts_with-key (c ∷ k) (d ∷ j) s (p, h) (q, l) = rw (starts_with-key k j s h l)

-- The parts with a value in the place of a variable.
unfoldable pub set_part : Bytes → Bytes → Part → Part
set_part key value (plain t) = plain t
set_part key value (var j) = if equal key j then plain value else var j

unfoldable pub set_parts : Bytes → Bytes → List Part → List Part
set_parts key value ps = map (set_part key value) ps

copies_text :
    (fuel : ℕ) (key value t s : Bytes)
    → Lacks b'{' t
    → replace_from (suc fuel) (placeholder_of key) value (t ++ s)
      ≡ t ++ replace_from (suc fuel) (placeholder_of key) value s
unfolding starts_with
copies_text fuel key value [] s _ = refl
copies_text fuel key value (b ∷ t) s (ne, h) =
    copies fuel (placeholder_of key) value b (t ++ s) (ground arith)
    ∙ ap (λ u. b ∷ u) (copies_text fuel key value t s h)

-- Another variable's placeholder is copied.
copies_other :
    (fuel : ℕ) (key value j s : Bytes)
    → IsKey key
    → IsKey j
    → equal key j ≡ false
    → replace_from (suc fuel) (placeholder_of key) value (placeholder_of j ++ s)
      ≡ placeholder_of j ++ replace_from (suc fuel) (placeholder_of key) value s
unfolding starts_with
copies_other fuel key value j s (_, no_end) (no_brace, no_close) differ =
    copies fuel (placeholder_of key) value b'{' (b'{' ∷ 32 ∷ ((j ++ ending []) ++ s)) (
      ap (starts_with (key ++ ending [])) (append_assoc j (ending []) s)
      ∙ starts_with-key key j s no_end no_close
      ∙ differ)
    ∙ ap (λ u. b'{' ∷ u)
        (copies fuel (placeholder_of key) value b'{' (32 ∷ ((j ++ ending []) ++ s)) refl
          ∙ ap (λ u. b'{' ∷ u)
              (copies_text fuel key value (32 ∷ (j ++ ending [])) s (
                omega arith,
                All-append (λ b. b ≢ b'{') j (ending []) no_brace
                    (omega arith, (omega arith, (omega arith, tt))),
              )))

starts_with-append : (p s : Bytes) → starts_with p (p ++ s) ≡ true
unfolding starts_with
starts_with-append [] s = refl
starts_with-append (b ∷ p) s = ground (arith, starts_with-append p s)

-- The placeholder itself is replaced.
replaces_key :
    (fuel : ℕ) (key value s : Bytes)
    → replace_from (suc fuel) (placeholder_of key) value (placeholder_of key ++ s)
      ≡ value ++ replace_from fuel (placeholder_of key) value s
replaces_key fuel key value s =
    replaces fuel (placeholder_of key) value s (λ e. cc) (starts_with-append (placeholder_of key) s)

nothing_left :
    (fuel : ℕ) (key value : Bytes) → replace_from (suc fuel) (placeholder_of key) value [] ≡ []
unfolding replace_from find_bytes
nothing_left fuel key value = refl

no_fuel : (key value s : Bytes) → replace_from zero (placeholder_of key) value s ≡ s
unfolding replace_from
no_fuel key value s = refl

no_room :
    (key value : Bytes) (ps : List Part)
    → length (print ps) ≤ 0
    → print ps ≡ print (set_parts key value ps)
unfolding print set_parts set_part
no_room key value [] le = refl
no_room key value (plain [] ∷ ps) le = no_room key value ps le
no_room key value (plain (b ∷ t) ∷ ps) le = absurd (omega (arith, le))
no_room key value (var j ∷ ps) le = absurd (omega (arith, le))

replaces_parts :
    (fuel : ℕ) (key value : Bytes) (ps : List Part)
    → IsKey key
    → All IsPart ps
    → length (print ps) ≤ fuel
    → replace_from fuel (placeholder_of key) value (print ps) ≡ print (set_parts key value ps)
unfolding print set_parts set_part
replaces_parts zero key value ps _ _ le = no_fuel key value (print ps) ∙ no_room key value ps le
replaces_parts (suc fuel) key value [] _ _ le = nothing_left fuel key value
replaces_parts (suc fuel) key value (plain t ∷ ps) k (h, hs) le =
    copies_text fuel key value t (print ps) h
    ∙ ap (λ u. t ++ u)
        (replaces_parts (suc fuel) key value ps k hs
          (omega (arith, le, length-append t (print ps))))
replaces_parts (suc fuel) key value (var j ∷ ps) k (h, hs) le = elim (Bool-cases (equal key j)) [
  | inl same ↦
      ap (λ n. replace_from (suc fuel) (placeholder_of key) value (placeholder_of n ++ print ps))
        (sym ((equal_iff key j).0 same))
      ∙ replaces_key fuel key value (print ps)
      ∙ ap (λ u. value ++ u)
          (replaces_parts fuel key value ps k hs
            (omega (arith, le, length-append (placeholder_of j) (print ps))))
      ∙ rw (same) refl
  | inr differ ↦
      copies_other fuel key value j (print ps) k h differ
      ∙ ap (λ u. placeholder_of j ++ u)
          (replaces_parts (suc fuel) key value ps k hs
            (omega (arith, le, length-append (placeholder_of j) (print ps))))
      ∙ rw (differ) refl
]

-- One variable of a template gets its value, wherever it stands, and nothing else changes.
pub replace_all-print :
    (key value : Bytes) (ps : List Part)
    → IsKey key
    → All IsPart ps
    → replace_all (placeholder_of key) value (print ps) ≡ print (set_parts key value ps)
unfolding replace_all
replace_all-print key value ps k h =
    replaces_parts (length (print ps)) key value ps k h (omega arith)
