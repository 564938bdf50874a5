-- ===== src/Fat/Name/Short.antt =====
-- The comparison of a short name in `FAT32_lookup` of os/kernel/fat32.c, for the entry of a file with a
-- plain name.
use mathlib.Core.Path.{subst}
use Prim.Native.Nat.{bit_and}
use kalinote_os.Base.{
  ℕ, zero, suc, ◌+◌, ◌-◌, ◌≤◌, ◌<◌, ◌≡◌, ◌≢◌, inl, inr, Bool, true, false, ◌&&◌, Option, none, some,
  arith, refl, sym, ◌∙◌, ltb, ◌==◌, if◌then◌else◌, Bool-cases,
}
use kalinote_os.Fat.Name.{
  same_char, is_letter, is_number, take_if, base_step, ext_step, base_match, ext_match, is_some,
  short_match, is_directory,
}
use kalinote_os.Fat.Name.Plain.{IsPlainByte, IsPlain, Begins, Decides, Decides-iff}

same_char-eq : (c n : ℕ) → c < 128 → same_char c n ≡ true → n ≡ c
same_char-eq c n lt e = ground (arith, e)

same_char-ne : (c n : ℕ) → c < 128 → same_char c n ≡ false → n ≢ c
same_char-ne c n lt e same = ground (arith, e, lt, same)

module _ (mem name : ℕ → ℕ) (len e n : ℕ) (plain : IsPlain mem e n) where
  low : (c : ℕ) → IsPlainByte c → c < 128
  low c h = grind (arith, h)

  ext_step-plain :
      (x j : ℕ)
      → IsPlainByte (mem (e + x))
      → ext_step mem name e x j ≡ take_if (same_char (mem (e + x)) (name j)) j
  unfolding ext_step
  ext_step-plain x j (inl d) =
      let letter : is_letter (mem (e + x)) ≡ false = ground (arith, d) in
      let digit : is_number (mem (e + x)) ≡ true = ground (arith, d) in rw (letter, digit) refl
  ext_step-plain x j (inr l) =
      let letter : is_letter (mem (e + x)) ≡ true = ground (arith, l) in
      let capital : (bit_and (mem (e + 12)) 16 == 0) ≡ true = ground (arith, plain.capital_ext) in
      rw (letter, capital) refl

  base_step-plain :
      (x : ℕ)
      → IsPlainByte (mem (e + x))
      → base_step mem name len e x x ≡ take_if (ltb x len && same_char (mem (e + x)) (name x)) x
  unfolding base_step
  base_step-plain x (inl d) =
      let space : (mem (e + x) == 32) ≡ false = ground (arith, d) in
      let letter : is_letter (mem (e + x)) ≡ false = ground (arith, d) in
      let digit : is_number (mem (e + x)) ≡ true = ground (arith, d) in
      rw (space, letter, digit) refl
  base_step-plain x (inr l) =
      let space : (mem (e + x) == 32) ≡ false = ground (arith, l) in
      let letter : is_letter (mem (e + x)) ≡ true = ground (arith, l) in
      let capital : (bit_and (mem (e + 12)) 8 == 0) ≡ true = ground (arith, plain.capital_base) in
      rw (space, letter, capital) refl

  -- The name goes on with the extension, from its byte `j` on.
  abbrev Ext : (j left : ℕ) → Type 0
  Ext j left = (i : ℕ) → j ≤ i → i < j + left → name i ≡ mem (e + (i + (7 - n)))

  ext_match-Decides :
      (j left : ℕ)
      → n + 1 ≤ j
      → j + left ≡ n + 4
      → Decides (Ext j left) (is_some (ext_match mem name e (j + (7 - n)) j left))
  unfolding ext_match is_some
  ext_match-Decides j zero l r = λ i a b. absurd (omega (arith, a, b))
  ext_match-Decides j (suc left) l r =
      let s = plain.short_base in
      let byte = plain.ext (j + (7 - n)) (omega (arith, l, s)) (omega (arith, r, s)) in
      let c = mem (e + (j + (7 - n))) in
      elim (Bool-cases (same_char c (name j))) [
        | inl y ↦
            let one : ext_step mem name e (j + (7 - n)) j ≡ some (j + 1) =
              ext_step-plain (j + (7 - n)) j byte ∙ rw y refl in
            rw (ext_match, one)
              (Decides-iff (Ext (j + 1) left) (Ext j (suc left)) _
                (λ h i a b. elim (Bool-cases (i == j)) [
                  | inl k ↦
                      let same : j ≡ i = ground (arith, k) in
                      subst (λ i. name i ≡ mem (e + (i + (7 - n)))) same
                        (same_char-eq c (name j) (low c byte) y)
                  | inr k ↦ h i (ground (arith, a, k)) (omega (arith, b))
                ])
                (λ h i a b. h i (omega (arith, a)) (omega (arith, b)))
                (subst
                  (λ x. Decides (Ext (j + 1) left) (is_some (ext_match mem name e x (j + 1) left)))
                  (omega arith) (ext_match-Decides (j + 1) left (omega arith) (omega (arith, r)))))
        | inr y ↦
            let one : ext_step mem name e (j + (7 - n)) j ≡ none =
              ext_step-plain (j + (7 - n)) j byte ∙ rw y refl in
            rw (ext_match, one)
              (λ h. same_char-ne c (name j) (low c byte) y (h j (omega arith) (omega arith)))
      ]

  -- The name goes on with the base, from its byte `x` on, and a dot.
  pub record Base (x : ℕ) : Type 0 where
    pub bytes : (i : ℕ) → x ≤ i → i < n → (i < len) × (name i ≡ mem (e + i))
    pub dot : name n ≡ 46

  abbrev BaseMatched : ℕ → Option ℕ → Type 0
  BaseMatched x none = Base x → ⊥
  BaseMatched x (some j) = (j ≡ n) × Base x

  base_match-pad :
      (x left : ℕ)
      → name n ≡ 46
      → n ≤ x
      → x + left ≡ 8
      → base_match mem name len e x n left ≡ some n
  unfolding base_match base_step
  base_match-pad x zero d l r = refl
  base_match-pad x (suc left) d l r =
      let space : (mem (e + x) == 32) ≡ true = ground (arith, plain.pad x l (omega (arith, r))) in
      let file : (bit_and (mem (e + 11)) 16 == 0) ≡ true = ground (arith, plain.file) in
      let dot : (name n == 46) ≡ true = ground (arith, d) in
      rw (base_match, base_step, space, file, dot)
        (base_match-pad (x + 1) left d (omega (arith, l)) (omega (arith, r)))

  base_match-end :
      (left : ℕ)
      → ((i : ℕ) → name i ≢ 32)
      → n + suc left ≡ 8
      → BaseMatched n (base_match mem name len e n n (suc left))
  unfolding base_match base_step
  base_match-end left no_space r = elim (Bool-cases (name n == 46)) [
    | inl y ↦
        subst (BaseMatched n)
          (sym (base_match-pad n (suc left) (ground (arith, y)) (omega arith) r))
          (refl, record { bytes = λ i a b. absurd (omega (arith, a, b)); dot = ground (arith, y) })
    | inr y ↦
        let space : (mem (e + n) == 32) ≡ true =
          ground (arith, plain.pad n (omega arith) (omega (arith, r))) in
        let file : (bit_and (mem (e + 11)) 16 == 0) ≡ true = ground (arith, plain.file) in
        let blank : same_char (mem (e + n)) (name n) ≡ false =
          ground (arith, no_space n, plain.pad n (omega arith) (omega (arith, r))) in
        rw (base_match, base_step, space, file, y, blank) (λ b. ground (arith, y, b.dot))
  ]

  Base-after :
      (x : ℕ) (o : Option ℕ)
      → x < len
      → name x ≡ mem (e + x)
      → BaseMatched (x + 1) o
      → BaseMatched x o
  Base-after x none lt same h =
      λ b. h (record { bytes = λ i l r. b.bytes i (omega (arith, l)) r; dot = b.dot })
  Base-after x (some j) lt same (k, b) = (
    k,
    record {
      bytes = λ i l r. elim (Bool-cases (i == x)) [
        | inl y ↦
            let is : x ≡ i = ground (arith, y) in
            subst (λ i. (i < len) × (name i ≡ mem (e + i))) is (lt, same)
        | inr y ↦ b.bytes i (ground (arith, l, y)) r
      ];
      dot = b.dot;
    },
  )

  base_match-Base :
      (x left : ℕ)
      → ((i : ℕ) → name i ≢ 32)
      → x ≤ n
      → x + left ≡ 8
      → BaseMatched x (base_match mem name len e x x left)
  unfolding base_match
  base_match-Base x zero no_space l r = absurd (omega (arith, l, r, plain.short_base))
  base_match-Base x (suc left) no_space l r = elim (Bool-cases (x == n)) [
    | inl k ↦
        let at_end : n ≡ x = ground (arith, k) in
        subst (λ x. BaseMatched x (base_match mem name len e x x (suc left))) at_end
          (base_match-end left no_space (omega (arith, r, at_end)))
    | inr k ↦
        let lt : x < n = ground (arith, k, l) in
        let byte = plain.base x lt in
        let c = mem (e + x) in
        elim (Bool-cases (ltb x len && same_char c (name x))) [
          | inl y ↦
              let one : base_step mem name len e x x ≡ some (x + 1) =
                base_step-plain x byte ∙ rw y refl in
              rw (base_match, one)
                (Base-after x (base_match mem name len e (x + 1) (x + 1) left) (ground (arith, y))
                  (same_char-eq c (name x) (low c byte) (ground (arith, y)))
                  (base_match-Base (x + 1) left no_space (omega (arith, lt)) (omega (arith, r))))
          | inr y ↦
              let one : base_step mem name len e x x ≡ none = base_step-plain x byte ∙ rw y refl in
              rw (base_match, one)
                (λ b.
                  let (in_name, same) = b.bytes x (omega arith) lt in
                  ground (arith, y, in_name, same, low c byte))
        ]
  ]

  -- The comparison of short names says whether the name begins with that of the entry.
  pub short_match-Begins :
      ((i : ℕ) → name i ≢ 32) → Decides (Begins mem name len e n) (short_match mem name len e)
  unfolding short_match
  short_match-Begins no_space =
      after (base_match mem name len e 0 0 8)
        (base_match-Base 0 8 no_space (omega arith) (omega arith))
    where
      ends : Base 0 → Decides (Begins mem name len e n) (is_some (ext_match mem name e 8 (n + 1) 3))
      ends b =
          Decides-iff (Ext (n + 1) 3) (Begins mem name len e n) _
            (λ h. record {
              base = λ i l. b.bytes i (omega arith) l;
              dot = b.dot;
              ext = λ i l r. h i l (omega (arith, r));
            })
            (λ h i l r. h.ext i l (omega (arith, r)))
            (subst (λ x. Decides (Ext (n + 1) 3) (is_some (ext_match mem name e x (n + 1) 3)))
              (omega (arith, plain.short_base))
              (ext_match-Decides (n + 1) 3 (omega arith) (omega arith)))

      after :
          (o : Option ℕ)
          → BaseMatched 0 o
          → Decides (Begins mem name len e n) (elim o as (λ x. Bool) [
            | none ↦ false
            | some j ↦
                if is_directory mem e then true else is_some (ext_match mem name e 8 (j + 1) 3)
          ])
      after none h = λ b. h (record { bytes = λ i l r. b.base i r; dot = b.dot })
      after (some j) (k, b) =
          let file : (bit_and (mem (e + 11)) 16 == 0) ≡ true = ground (arith, plain.file) in
          rw file (
            subst
              (λ j. Decides (Begins mem name len e n) (is_some (ext_match mem name e 8 (j + 1) 3)))
              (sym k) (ends b))
