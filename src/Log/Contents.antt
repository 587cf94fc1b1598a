-- ===== src/Log/Contents.antt =====
-- What the buffer of a log message holds.
use mathlib.Core.Path.{subst}
use px4_rs.Prelude.{
  ℕ, zero, suc, ◌+◌, ◌-◌, ◌<◌, ◌≡◌, ◌≢◌, min, List, [], ◌∷◌, ◌++◌, length, take, drop, set, arith,
  refl, sym, ap, ap₂, ◌∙◌, append-nil, append_assoc, length-append, length-take, length-drop,
  length-replicate,
}
use px4_rs.Log.{StackBuf, new_buf, fitting, write_str, as_c_str, c_string, write_all, concat}

take-append : (n : ℕ) (xs ys : List ℕ) → take n (xs ++ ys) ≡ take n xs ++ take (n - length xs) ys
take-append zero [] ys = refl
take-append zero (x ∷ xs) ys =
    let e : 0 ≡ 0 - suc (length xs) = omega arith in ap (λ k. take k ys) e
take-append (suc n) [] ys = let e : suc n ≡ suc n - 0 = omega arith in ap (λ k. take k ys) e
take-append (suc n) (x ∷ xs) ys =
    let e : n - length xs ≡ suc n - suc (length xs) = omega arith in
    ap (λ l. x ∷ l) (take-append n xs ys ∙ ap (λ k. take n xs ++ take k ys) e)

take_prefix : (k : ℕ) (xs ys : List ℕ) → length xs ≡ k → take k (xs ++ ys) ≡ xs
take_prefix zero [] ys e = refl
take_prefix zero (x ∷ xs) ys e = absurd (omega arith)
take_prefix (suc k) [] ys e = absurd (omega arith)
take_prefix (suc k) (x ∷ xs) ys e = ap (λ l. x ∷ l) (take_prefix k xs ys (omega arith))

take_fitting : (n : ℕ) (xs : List ℕ) → take (min (length xs) n) xs ≡ take n xs
take_fitting zero [] = refl
take_fitting zero (x ∷ xs) =
    let e : min (suc (length xs)) 0 ≡ 0 = omega arith in ap (λ k. take k (x ∷ xs)) e
take_fitting (suc n) [] = let e : min 0 (suc n) ≡ 0 = omega arith in ap (λ k. take k []) e
take_fitting (suc n) (x ∷ xs) =
    let e : min (suc (length xs)) (suc n) ≡ suc (min (length xs) n) = omega arith in
    ap (λ k. take k (x ∷ xs)) e ∙ ap (λ l. x ∷ l) (take_fitting n xs)

-- The buffer holds as much of `h` as fits.
record Holds (b : StackBuf) (h : List ℕ) : Type 0 where
  whole : length b.buf ≡ 256
  reached : b.pos ≡ min 255 (length h)
  prefix : take b.pos b.buf ≡ take 255 h

write_str-Holds : (s h : List ℕ) (b : StackBuf) → Holds b h → Holds (write_str s b) (h ++ s)
unfolding write_str
write_str-Holds s h b v = record {
  whole = omega (
    arith,
    v.whole,
    v.reached,
    length-append (take b.pos b.buf) (take (fitting s b) s ++ drop (b.pos + fitting s b) b.buf),
    length-append (take (fitting s b) s) (drop (b.pos + fitting s b) b.buf),
    length-take b.pos b.buf,
    length-take (fitting s b) s,
    length-drop (b.pos + fitting s b) b.buf,
  );
  reached = omega (arith, v.reached, length-append h s);
  prefix =
      let a = take b.pos b.buf in
      let c = take (fitting s b) s in
      let e : 255 - b.pos ≡ 255 - length h = omega (arith, v.reached) in
      ap (λ l. take (b.pos + fitting s b) l)
        (sym (append_assoc a c (drop (b.pos + fitting s b) b.buf)))
      ∙ (take_prefix (b.pos + fitting s b) (a ++ c) (drop (b.pos + fitting s b) b.buf) (
            omega (
              arith,
              v.whole,
              v.reached,
              length-append a c,
              length-take b.pos b.buf,
              length-take (fitting s b) s,
            ))
          ∙ (ap₂ (λ x y. x ++ y) v.prefix (take_fitting (255 - b.pos) s ∙ ap (λ k. take k s) e)
              ∙ sym (take-append 255 h s)));
}

write_all-Holds :
    (ss : List (List ℕ)) (h : List ℕ) (b : StackBuf)
    → Holds b h
    → Holds (write_all ss b) (h ++ concat ss)
write_all-Holds [] h b v = subst (Holds b) (sym (append-nil h)) v
write_all-Holds (s ∷ ss) h b v =
    subst (Holds (write_all ss (write_str s b))) (append_assoc h s (concat ss))
      (write_all-Holds ss (h ++ s) (write_str s b) (write_str-Holds s h b v))

-- No byte is NUL.
abbrev pub NoNul : List ℕ → Type 0
NoNul [] = Unit {0}
NoNul (x ∷ xs) = (x ≢ 0) × NoNul xs

-- A string that is cut off by a NUL after `k` bytes.
c_string-set :
    (k : ℕ) (xs : List ℕ) → k < length xs → NoNul (take k xs) → c_string (set xs k 0) ≡ take k xs
c_string-set k [] h n = absurd (omega arith)
c_string-set zero (x ∷ xs) h n = refl
c_string-set (suc k) (x ∷ xs) h (n, ns) = ground (arith, c_string-set k xs (omega arith) ns)

NoNul-take : (k : ℕ) (xs : List ℕ) → NoNul xs → NoNul (take k xs)
NoNul-take zero xs n = tt
NoNul-take (suc k) [] n = tt
NoNul-take (suc k) (x ∷ xs) (n, ns) = (n, NoNul-take k xs ns)

new_buf-Holds : Holds new_buf []
unfolding new_buf
new_buf-Holds = record {
  whole = length-replicate {A = ℕ} 256 0;
  reached = omega arith;
  prefix = refl;
}

-- If no byte that is written is NUL, the C string is the first 255 bytes of all that was written.
pub message_lem :
    (ss : List (List ℕ))
    → NoNul (concat ss)
    → c_string (as_c_str (write_all ss new_buf)) ≡ take 255 (concat ss)
unfolding as_c_str
message_lem ss n =
    let b = write_all ss new_buf in
    let v = write_all-Holds ss [] new_buf new_buf-Holds in
    let e : min b.pos 255 ≡ b.pos = omega (arith, v.reached) in
    ap (λ k. c_string (set b.buf k 0)) e
    ∙ (c_string-set b.pos b.buf (omega (arith, v.whole, v.reached))
          (subst NoNul (sym v.prefix) (NoNul-take 255 (concat ss) n))
        ∙ v.prefix)
