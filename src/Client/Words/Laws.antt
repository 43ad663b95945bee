-- ===== src/Client/Words/Laws.antt =====
-- str2vec ends and gives the words of its text; words and join are inverse to each other.
use single_terminal_login_sy.Base.{
  ℕ, zero, suc, ◌+◌, ◌-◌, ◌<◌, ◌≡◌, ◌≢◌, refl, sym, ap, ◌∙◌, inl, inr, true, false, Option, none,
  some, List, [], ◌∷◌, ◌++◌, append_assoc, length, ◌==◌, ==_refl, Option-cases, Bool-cases, arith,
}
use single_terminal_login_sy.Base.Text.{Text}
use single_terminal_login_sy.Client.Words.{
  take, drop, starts_with, shift, offset, find, str2vec_loop, str2vec, round,
}
use single_terminal_login_sy.Client.Words.Reference.{extend, words, join, Lacks, AllLack}

module _ (sep : ℕ) where
  offset-none : (s : Text) → offset s (sep ∷ []) ≡ none → words sep s ≡ s ∷ []
  unfolding offset starts_with words
  offset-none [] h = refl
  offset-none (c ∷ s) h = ground (arith, offset-none s)

  offset_here : (c : ℕ) (s : Text) → (c == sep) ≡ true → offset (c ∷ s) (sep ∷ []) ≡ some 0
  unfolding offset starts_with
  offset_here c s h = ground arith

  offset_next :
      (c : ℕ) (s : Text)
      → (c == sep) ≡ false
      → offset (c ∷ s) (sep ∷ []) ≡ shift 1 (offset s (sep ∷ []))
  unfolding offset starts_with
  offset_next c s h = ground arith

  shift-some : (o : Option ℕ) (k n : ℕ) → shift k o ≡ some n → (i : ℕ) × (o ≡ some i) × (n ≡ k + i)
  shift-some none k n h = cc
  shift-some (some i) k n h = (i, refl, sym (some_inj (k + i) n h))
    where
      some_inj : (a b : ℕ) → some a ≡ some b → a ≡ b
      some_inj a b e = cc

  offset-some :
      (s : Text) (n : ℕ)
      → offset s (sep ∷ []) ≡ some n
      → (words sep s ≡ take n s ∷ words sep (drop (suc n) s)) × (n < length s)
  unfolding words take drop
  offset-some [] n h = unfold offset in cc
  offset-some (c ∷ s) n h = elim (Bool-cases (c == sep)) [
    | inl e ↦ (let zero_n : n ≡ 0 = cc (h, offset_here c s e) in rw (zero_n, e) (refl, omega arith))
    | inr e ↦
        (let (i, oi, ni) = shift-some (offset s (sep ∷ [])) 1 n (sym (offset_next c s e) ∙ h) in
          let (w, lt) = offset-some s i oi in
          let ni' : n ≡ suc i = omega arith in rw (ni', e, w) (refl, omega arith))
  ]

pub drop-drop : (m n : ℕ) (s : Text) → drop n (drop m s) ≡ drop (m + n) s
unfolding drop
drop-drop zero n s = ap (λ k. drop k s) (omega arith)
drop-drop (suc m) n [] = nothing n ∙ sym (nothing (suc m + n))
  where
    nothing : (k : ℕ) → drop k [] ≡ []
    nothing zero = refl
    nothing (suc k) = refl
drop-drop (suc m) n (c ∷ s) =
    let e : suc m + n ≡ suc (m + n) = omega arith in rw e (drop-drop m n s)

pub length-drop : (n : ℕ) (s : Text) → length (drop n s) ≡ length s - n
unfolding drop
length-drop zero s = omega arith
length-drop (suc n) [] = omega arith
length-drop (suc n) (c ∷ s) = omega (arith, length-drop n s)

module _ (sep : ℕ) where
  -- With more rounds than there are bytes left, the loop ends with the words left.
  loop-words :
      (fuel : ℕ) (src : Text) (pos : ℕ) (vec : List Text)
      → length (drop pos src) < fuel
      → str2vec_loop fuel src (sep ∷ []) pos vec ≡ some (vec ++ words sep (drop pos src))
  unfolding str2vec_loop find
  loop-words zero src pos vec h = absurd (omega arith)
  loop-words (suc fuel) src pos vec h = elim (Option-cases (offset (drop pos src) (sep ∷ []))) [
    | inl e ↦
        ap (λ o. go_on (shift pos o)) e
        ∙ ap (λ w. some (vec ++ w)) (sym (offset-none sep (drop pos src) e))
    | inr (n, e) ↦
        (let (w, lt) = offset-some sep (drop pos src) n e in
          let there : drop (suc n) (drop pos src) ≡ drop (pos + n + 1) src =
            drop-drop pos (suc n) src ∙ ap (λ k. drop k src) (omega arith) in
          let shorter : length (drop (pos + n + 1) src) < fuel =
            omega (arith, length-drop (pos + n + 1) src, length-drop pos src) in
          let width : pos + n - pos ≡ n = omega arith in
          ap (λ o. go_on (shift pos o)) e
          ∙ loop-words fuel src (pos + n + 1) (vec ++ take (pos + n - pos) (drop pos src) ∷ [])
              shorter
          ∙ rw (width, w, there, append_assoc) refl)
  ]
    where
      go_on : Option ℕ → Option (List Text)
      go_on = round src (sep ∷ []) pos vec (str2vec_loop fuel src (sep ∷ []))

  join-extend : (c : ℕ) (ws : List Text) → ws ≢ [] → join sep (extend c ws) ≡ c ∷ join sep ws
  unfolding join
  join-extend c [] h = absurd (h refl)
  join-extend c (w ∷ []) h = refl
  join-extend c (w ∷ v ∷ ws) h = refl

  join_empty : (ws : List Text) → ws ≢ [] → join sep ([] ∷ ws) ≡ sep ∷ join sep ws
  unfolding join
  join_empty [] h = absurd (h refl)
  join_empty (w ∷ ws) h = refl

  extend-ne-nil : (c : ℕ) (ws : List Text) → extend c ws ≢ []
  extend-ne-nil c [] = λ e. cc
  extend-ne-nil c (w ∷ ws) = λ e. cc

  words-ne-nil : (s : Text) → words sep s ≢ []
  unfolding words
  words-ne-nil [] = λ e. cc
  words-ne-nil (c ∷ s) = elim (Bool-cases (c == sep)) [
    | inl h ↦ rw h (λ e. cc)
    | inr h ↦ rw h (extend-ne-nil c (words sep s))
  ]

  join-words : (s : Text) → join sep (words sep s) ≡ s
  unfolding words
  join-words [] = unfold join in refl
  join-words (c ∷ s) = elim (Bool-cases (c == sep)) [
    | inl h ↦
        (let same : c ≡ sep = ground arith in
          rw (h, join_empty (words sep s) (words-ne-nil s), join-words s, same) refl)
    | inr h ↦ rw (h, join-extend c (words sep s) (words-ne-nil s), join-words s) refl
  ]

  words_lacking : (w : Text) → Lacks sep w → words sep w ≡ w ∷ []
  unfolding words
  words_lacking [] h = refl
  words_lacking (c ∷ w) (n, h) = ground (arith, words_lacking w h)

  words-append : (w s : Text) → Lacks sep w → words sep (w ++ sep ∷ s) ≡ w ∷ words sep s
  unfolding words
  words-append [] s h = rw (==_refl sep) refl
  words-append (c ∷ w) s (n, h) = ground (arith, words-append w s h)

  words-join : (ws : List Text) → ws ≢ [] → AllLack sep ws → words sep (join sep ws) ≡ ws
  unfolding join
  words-join [] h l = absurd (h refl)
  words-join (w ∷ []) h (l, _) = words_lacking w l
  words-join (w ∷ v ∷ ws) h (l, ls) =
      words-append w (join sep (v ∷ ws)) l ∙ ap (λ x. w ∷ x) (words-join (v ∷ ws) (λ e. cc) ls)

  -- str2vec with a separator of one byte ends, on every text that is not empty, with the parts of the
  -- text between its separators, empty ones included, and these parts, joined by the separator, are
  -- the text.
  pub str2vec-words :
      (s : Text)
      → s ≢ []
      → (str2vec s (sep ∷ []) ≡ some (words sep s)) × (join sep (words sep s) ≡ s)
  unfolding str2vec drop
  str2vec-words [] h = absurd (h refl)
  str2vec-words (c ∷ s) h =
      (loop-words (suc (length (c ∷ s))) (c ∷ s) 0 [] (omega arith), join-words (c ∷ s))

  -- Words without the separator, at least one of them and not all joined to the empty text, are what
  -- str2vec gives for the text that joins them by the separator.
  pub str2vec-join :
      (ws : List Text)
      → ws ≢ []
      → AllLack sep ws
      → join sep ws ≢ []
      → str2vec (join sep ws) (sep ∷ []) ≡ some ws
  str2vec-join ws h l n = (str2vec-words (join sep ws) n).0 ∙ ap some (words-join ws h l)
