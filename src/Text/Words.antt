-- ===== src/Text/Words.antt =====
-- Words, characters that separate them, and what trimming and splitting do at such characters.
use px4_rs.Prelude.{
  ℕ, ◌≡◌, ◌==◌, Bool, true, false, not, ◌&&◌, none, some, List, [], ◌∷◌, ◌++◌, arith, refl, ap, ◌∙◌,
  sym, append-nil,
}
use px4_rs.Text.{
  equal, all, is_nil, is_whitespace, trim_start, trim_end, trim, push_word, split_words,
  split_whitespace, split_once, strip_last,
}

pub all-append :
    (p : ℕ → Bool) (s t : List ℕ) → all p s ≡ true → all p t ≡ true → all p (s ++ t) ≡ true
all-append p [] t h k = k
all-append p (c ∷ s) t h k = ground (arith, all-append p s t)

pub all_weaken :
    (p q : ℕ → Bool) (s : List ℕ)
    → ((c : ℕ) → p c ≡ true → q c ≡ true)
    → all p s ≡ true
    → all q s ≡ true
all_weaken p q [] w h = refl
all_weaken p q (c ∷ s) w h = ground (arith, w c, all_weaken p q s w)

pub equal_refl : (s : List ℕ) → equal s s ≡ true
unfolding equal
equal_refl [] = refl
equal_refl (c ∷ s) = ground (arith, equal_refl s)

pub equal_sound : (s t : List ℕ) → equal s t ≡ true → s ≡ t
unfolding equal
equal_sound [] [] e = refl
equal_sound [] (d ∷ t) e = absurd (cc)
equal_sound (c ∷ s) [] e = absurd (cc)
equal_sound (c ∷ s) (d ∷ t) e = ground (arith, equal_sound s t)

pub split_once_at :
    (d : ℕ) (a b : List ℕ)
    → all (λ c. not (c == d)) a ≡ true
    → split_once d (a ++ d ∷ b) ≡ some (a, b)
unfolding split_once
split_once_at d [] b h = ground arith
split_once_at d (c ∷ a) b h = ground (arith, split_once_at d a b)

pub split_once-none :
    (d : ℕ) (a : List ℕ) → all (λ c. not (c == d)) a ≡ true → split_once d a ≡ none
unfolding split_once
split_once-none d [] h = refl
split_once-none d (c ∷ a) h = ground (arith, split_once-none d a)

pub strip_last-append : (d : ℕ) (a : List ℕ) → strip_last d (a ++ d ∷ []) ≡ some a
unfolding strip_last
strip_last-append d [] = ground arith
strip_last-append d (c ∷ []) = ground arith
strip_last-append d (c ∷ e ∷ a) = rw (strip_last-append d (e ∷ a)) refl

-- Blanks and trimming.
pub trim_start-blanks :
    (b s : List ℕ) → all is_whitespace b ≡ true → trim_start (b ++ s) ≡ trim_start s
unfolding trim_start
trim_start-blanks [] s h = refl
trim_start-blanks (c ∷ b) s h = ground (arith, trim_start-blanks b s)

trim_end_blank : (b : List ℕ) → all is_whitespace b ≡ true → trim_end b ≡ []
unfolding trim_end
trim_end_blank [] h = refl
trim_end_blank (c ∷ b) h = ground (arith, trim_end_blank b)

pub trim_end-blanks : (s b : List ℕ) → all is_whitespace b ≡ true → trim_end (s ++ b) ≡ trim_end s
unfolding trim_end
trim_end-blanks [] b h = trim_end_blank b h
trim_end-blanks (c ∷ s) b h = rw (trim_end-blanks s b h) refl

is_nil-append : (a : List ℕ) (c : ℕ) (b : List ℕ) → is_nil (a ++ c ∷ b) ≡ false
is_nil-append [] c b = refl
is_nil-append (d ∷ a) c b = refl

-- Trimming stops at a character that is no blank.
pub trim_end-at :
    (a : List ℕ) (c : ℕ) (b : List ℕ)
    → is_whitespace c ≡ false
    → trim_end (a ++ c ∷ b) ≡ a ++ c ∷ trim_end b
unfolding trim_end
trim_end-at [] c b h = ground arith
trim_end-at (d ∷ a) c b h = ground (arith, trim_end-at a c b, is_nil-append a c (trim_end b))

pub trim_end_idem : (s : List ℕ) → trim_end (trim_end s) ≡ trim_end s
unfolding trim_end
trim_end_idem [] = refl
trim_end_idem (c ∷ s) = ground (arith, trim_end_idem s)

pub trim-trim_end : (s : List ℕ) → trim (trim_end s) ≡ trim s
unfolding trim trim_start trim_end
trim-trim_end [] = refl
trim-trim_end (c ∷ s) = ground (arith, trim-trim_end s, trim_end_idem s)

pub trim_blank : (b : List ℕ) → all is_whitespace b ≡ true → trim b ≡ []
unfolding trim trim_start
trim_blank b h =
    ap trim (sym (append-nil b)) ∙ ap trim_end (trim_start-blanks b [] h) ∙ trim_end_blank [] refl

-- Words hold no blank, and nothing that begins a comment or a value.
abbrev pub not_blank : ℕ → Bool
not_blank c = not (is_whitespace c)

abbrev pub is_plain : ℕ → Bool
is_plain c = not (is_whitespace c) && not (c == b'#') && not (c == b'=')

abbrev pub IsWord : List ℕ → Type 0
IsWord w = (is_nil w ≡ false) × (all is_plain w ≡ true)

pub plain-not_blank : (w : List ℕ) → all is_plain w ≡ true → all not_blank w ≡ true
plain-not_blank w h = all_weaken is_plain not_blank w (λ c p. ground arith) h

trim_end_plain : (w : List ℕ) → all not_blank w ≡ true → trim_end w ≡ w
unfolding trim_end
trim_end_plain [] h = refl
trim_end_plain (c ∷ w) h = ground (arith, trim_end_plain w)

pub trim_end_word :
    (a w : List ℕ) → is_nil w ≡ false → all not_blank w ≡ true → trim_end (a ++ w) ≡ a ++ w
trim_end_word a [] n h = absurd (cc)
trim_end_word a (c ∷ w) n h =
    trim_end-at a c w (ground arith) ∙ ap (λ t. a ++ c ∷ t) (trim_end_plain w (ground arith))

pub trim_end-word : (w s : List ℕ) → all not_blank w ≡ true → trim_end (w ++ s) ≡ w ++ trim_end s
unfolding trim_end
trim_end-word [] s h = refl
trim_end-word (c ∷ w) s h = ground (arith, trim_end-word w s)

pub split_words-word :
    (w s : List ℕ)
    → all not_blank w ≡ true
    → split_words (w ++ s) ≡ (w ++ (split_words s).0, (split_words s).1)
unfolding split_words
split_words-word [] s h = refl
split_words-word (c ∷ w) s h = ground (arith, split_words-word w s)

split_words_one : (w : List ℕ) → all not_blank w ≡ true → split_words w ≡ (w, [])
unfolding split_words
split_words_one w h =
    ap split_words (sym (append-nil w))
    ∙ split_words-word w [] h
    ∙ ap (λ (t : List ℕ). (t, [])) (append-nil w)

pub space_blank : is_whitespace b' ' ≡ true
unfolding is_whitespace
space_blank = refl

push_word_one : (w : List ℕ) (ws : List (List ℕ)) → is_nil w ≡ false → push_word (w, ws) ≡ w ∷ ws
push_word_one [] ws h = absurd (cc)
push_word_one (c ∷ w) ws h = refl

split_words-space : (s : List ℕ) → split_words (b' ' ∷ s) ≡ ([], split_whitespace s)
unfolding split_words split_whitespace
split_words-space s = rw space_blank refl

pub split_space : (s : List ℕ) → split_whitespace (b' ' ∷ s) ≡ split_whitespace s
unfolding split_whitespace
split_space s = ap push_word (split_words-space s)

word_onto :
    (w : List ℕ) (r : List ℕ × List (List ℕ)) (ws : List (List ℕ))
    → is_nil w ≡ false
    → r ≡ ([], ws)
    → push_word (w ++ r.0, r.1) ≡ w ∷ ws
word_onto w r ws n e = rw (e, append-nil w) (push_word_one w ws n)

-- A word, a space and what follows.
pub word_then :
    (w s : List ℕ) → IsWord w → split_whitespace (w ++ (b' ' ∷ s)) ≡ w ∷ split_whitespace s
unfolding split_whitespace
word_then w s (n, p) =
    ap push_word (split_words-word w (b' ' ∷ s) (plain-not_blank w p))
    ∙ word_onto w (split_words (b' ' ∷ s)) (split_whitespace s) n (split_words-space s)

pub last_word : (w : List ℕ) → IsWord w → split_whitespace w ≡ w ∷ []
unfolding split_whitespace
last_word w (n, p) = ap push_word (split_words_one w (plain-not_blank w p)) ∙ push_word_one w [] n

pub two_words :
    (v w : List ℕ) → IsWord v → IsWord w → split_whitespace (v ++ (b' ' ∷ w)) ≡ v ∷ w ∷ []
two_words v w v_ok w_ok = word_then v w v_ok ∙ ap (λ ws. v ∷ ws) (last_word w w_ok)
