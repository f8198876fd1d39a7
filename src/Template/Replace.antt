-- ===== src/Template/Replace.antt =====
-- One call of `replace` on the text of a clear template fills the places of its key, and only those.
use mathlib.Core.List.{append-nil, append_assoc}
use yarf.Common.{
  ℕ, suc, ◌-◌, ◌≡◌, refl, sym, ap, ◌∙◌, true, false, inl, inr, [], ◌∷◌, ◌++◌, arith, if◌then◌else◌,
  length, all, Bool-cases,
}
use yarf.Text.{Text, text_eq, is_prefix, replace_scan, replace}
use yarf.Text.Equality.{text_eq→eq, is_prefix-append}
use yarf.Template.{
  Template, done, hole, dollar, dollars, mark, unparse, is_key_char, no_dollar, is_key, separates,
  is_clear, is_clear_after,
}

-- The specification of one call: `v` joins the literals around it.
unfoldable pub prepend : Text → Template → Template
prepend p (done l) = done (p ++ l)
prepend p (hole l k t) = hole (p ++ l) k t

unfoldable pub fill : Text → Text → Template → Template
unfolding prepend
fill k v (done l) = done l
fill k v (hole l j t) = if text_eq j k then prepend (l ++ v) (fill k v t) else hole l j (fill k v t)

pub is_key→no_dollar : (k : Text) → all is_key_char k ≡ true → no_dollar k ≡ true
unfolding no_dollar
is_key→no_dollar [] h = refl
is_key→no_dollar (c ∷ k) h = ground (arith, is_key→no_dollar k)

-- The scan goes through a text without dollars.
scan-no_dollar :
    (k v l s : Text)
    → no_dollar l ≡ true
    → replace_scan (mark k) v 0 (l ++ s) ≡ l ++ replace_scan (mark k) v 0 s
unfolding replace_scan no_dollar
scan-no_dollar k v [] s h = refl
scan-no_dollar k v (c ∷ l) s h = ground (arith, scan-no_dollar k v l s)

-- What a match leaves to be skipped.
scan-skip : (old v p s : Text) → replace_scan old v (length p) (p ++ s) ≡ replace_scan old v 0 s
unfolding replace_scan
scan-skip old v [] s = refl
scan-skip old v (c ∷ p) s = scan-skip old v p s

scan-match :
    (a : ℕ) (o v s : Text) → replace_scan (a ∷ o) v 0 (a ∷ o ++ s) ≡ v ++ replace_scan (a ∷ o) v 0 s
unfolding replace_scan
scan-match a o v s =
    rw (is_prefix-append (a ∷ o) s, replace_scan)
      (ap (λ (n : ℕ). v ++ replace_scan (a ∷ o) v n (o ++ s)) pred_suc
        ∙ ap (λ (x : Text). v ++ x) (scan-skip (a ∷ o) v o s))
  where
    pred_suc : suc (length o) - 1 ≡ length o
    pred_suc = omega arith

scan-miss :
    (old v : Text) (d : ℕ) (t : Text)
    → is_prefix old (d ∷ t) ≡ false
    → replace_scan old v 0 (d ∷ t) ≡ d ∷ replace_scan old v 0 t
unfolding replace_scan
scan-miss old v d t e = rw (e, replace_scan)

-- Where the key differs, the mark does not match.
other_key :
    (k j r : Text)
    → no_dollar k ≡ true
    → no_dollar j ≡ true
    → is_prefix (k ++ dollars) (j ++ (dollar ∷ r)) ≡ true
    → text_eq j k ≡ true
unfolding is_prefix text_eq no_dollar
other_key [] [] r hk hj h = refl
other_key [] (d ∷ j) r hk hj h = ground arith
other_key (c ∷ k) [] r hk hj h = ground arith
other_key (c ∷ k) (d ∷ j) r hk hj h = ground (arith, other_key k j r)

-- Behind a mark no second match can begin: not at its closing dollars with what follows as a key,
separated :
    (k l s : Text)
    → all is_key_char k ≡ true
    → no_dollar l ≡ true
    → separates l ≡ true
    → is_prefix (k ++ dollars) (l ++ s) ≡ false
unfolding is_prefix no_dollar separates
separated [] [] s hk hl hs = cc
separated [] (d ∷ l) s hk hl hs = ground arith
separated (c ∷ k) [] s hk hl hs = cc
separated (c ∷ k) (d ∷ l) s hk hl hs = ground (arith, separated k l s)

no_match_in_literal : (k l : Text) → no_dollar l ≡ true → is_prefix (k ++ dollars) l ≡ false
unfolding is_prefix no_dollar
no_match_in_literal [] [] hl = refl
no_match_in_literal [] (d ∷ l) hl = ground arith
no_match_in_literal (c ∷ k) [] hl = refl
no_match_in_literal (c ∷ k) (d ∷ l) hl = ground (arith, no_match_in_literal k l)

no_match_after :
    (k : Text) (t : Template)
    → all is_key_char k ≡ true
    → is_clear_after t ≡ true
    → is_prefix (k ++ dollars) (unparse t) ≡ false
unfolding unparse is_clear_after
no_match_after k (done l) hk ht = no_match_in_literal k l ht
no_match_after k (hole l j t) hk ht = separated k l _ hk (ground arith) (ground arith)

-- nor at the second of the closing dollars.
no_dollar_after :
    (r : Text) (t : Template) → is_clear_after t ≡ true → is_prefix (dollar ∷ r) (unparse t) ≡ false
unfolding unparse is_clear_after is_prefix no_dollar separates
no_dollar_after r (done []) ht = refl
no_dollar_after r (done (c ∷ l)) ht = ground arith
no_dollar_after r (hole [] j t) ht = cc
no_dollar_after r (hole (c ∷ l) j t) ht = ground arith

no_match_closing :
    (k : Text) (t : Template)
    → all is_key_char k ≡ true
    → is_clear_after t ≡ true
    → is_prefix (mark k) (dollar ∷ dollar ∷ unparse t) ≡ false
unfolding is_prefix
no_match_closing k t hk ht = no_match_after k t hk ht

is_key-no_dollar : (j : Text) → is_key j ≡ true → no_dollar j ≡ true
unfolding is_key
is_key-no_dollar [] h = cc
is_key-no_dollar (c ∷ j) h = is_key→no_dollar (c ∷ j) h

miss_first :
    (k j r : Text)
    → all is_key_char k ≡ true
    → is_key j ≡ true
    → text_eq j k ≡ false
    → is_prefix (mark k) (dollar ∷ dollar ∷ j ++ (dollar ∷ r)) ≡ false
unfolding is_prefix
miss_first k j r hk hj ne =
    ground (arith, other_key k j r (is_key→no_dollar k hk) (is_key-no_dollar j hj))

miss_second : (k j r : Text) → is_key j ≡ true → is_prefix (mark k) (dollar ∷ j ++ r) ≡ false
unfolding is_prefix is_key
miss_second k [] r hj = cc
miss_second k (c ∷ j) r hj = ground arith

-- The scan passes a place with another key.
scan-other :
    (k v j : Text) (t : Template)
    → all is_key_char k ≡ true
    → is_key j ≡ true
    → is_clear_after t ≡ true
    → text_eq j k ≡ false
    → replace_scan (mark k) v 0 (dollar ∷ dollar ∷ j ++ (dollar ∷ dollar ∷ unparse t))
      ≡ dollar ∷ dollar ∷ j ++ (dollar ∷ dollar ∷ replace_scan (mark k) v 0 (unparse t))
unfolding is_prefix
scan-other k v j t hk hj ht ne =
    scan-miss (mark k) v dollar _ (miss_first k j _ hk hj ne)
    ∙ ap (λ (x : Text). dollar ∷ x) (scan-miss (mark k) v dollar _ (miss_second k j _ hj))
    ∙ ap (λ (x : Text). dollar ∷ dollar ∷ x)
        (scan-no_dollar k v j _ (is_key-no_dollar j hj)
          ∙ ap (λ (x : Text). j ++ x)
              (scan-miss (mark k) v dollar _ (no_match_closing k t hk ht)
                ∙ ap (λ (x : Text). dollar ∷ x)
                    (scan-miss (mark k) v dollar _ (no_dollar_after (k ++ dollars) t ht))))

prepend-unparse : (p : Text) (t : Template) → unparse (prepend p t) ≡ p ++ unparse t
unfolding unparse prepend
prepend-unparse p (done l) = refl
prepend-unparse p (hole l k t) = append_assoc p l _

-- A place with this key is filled, the scan passes any other.
scan-place :
    (k v j : Text) (t : Template)
    → all is_key_char k ≡ true
    → is_key j ≡ true
    → is_clear_after t ≡ true
    → (l : Text) → replace_scan (mark k) v 0 (unparse t) ≡ unparse (fill k v t)
    → l ++ replace_scan (mark k) v 0 (dollar ∷ dollar ∷ j ++ (dollar ∷ dollar ∷ unparse t))
      ≡ unparse (if text_eq j k then prepend (l ++ v) (fill k v t) else hole l j (fill k v t))
scan-place k v j t hk hj ht l ih = elim (Bool-cases (text_eq j k)) [
  | inl e ↦
      rw (e, text_eq→eq j k e)
        (ap (λ (x : Text). l ++ x)
            (ap (λ (x : Text). replace_scan (mark k) v 0 (dollar ∷ dollar ∷ x))
                (sym (append_assoc k dollars (unparse t)))
              ∙ scan-match dollar (dollar ∷ k ++ dollars) v (unparse t)
              ∙ ap (λ (x : Text). v ++ x) ih)
          ∙ sym (append_assoc l v _)
          ∙ sym (prepend-unparse (l ++ v) (fill k v t)))
  | inr e ↦ rw e (
      unfold unparse in
      (ap (λ (x : Text). l ++ x)
        (scan-other k v j t hk hj ht e
          ∙ ap (λ (x : Text). dollar ∷ dollar ∷ j ++ (dollar ∷ dollar ∷ x)) ih)))
]

scan-clear : (k v l : Text) → no_dollar l ≡ true → replace_scan (mark k) v 0 l ≡ l
unfolding replace_scan
scan-clear k v l h =
    ap (replace_scan (mark k) v 0) (sym (append-nil l)) ∙ scan-no_dollar k v l [] h ∙ append-nil l

fill_after :
    (k v : Text) (t : Template)
    → all is_key_char k ≡ true
    → is_clear_after t ≡ true
    → replace_scan (mark k) v 0 (unparse t) ≡ unparse (fill k v t)
unfolding unparse fill is_clear_after
fill_after k v (done l) hk ht = scan-clear k v l ht
fill_after k v (hole l j t) hk ht =
    scan-no_dollar k v l _ (ground arith)
    ∙ scan-place k v j t hk (ground arith) (ground arith) l (fill_after k v t hk (ground arith))

-- `replace` of one mark on the text of a clear template fills every place of that key and no other.
pub replace-unparse :
    (k v : Text) (t : Template)
    → all is_key_char k ≡ true
    → is_clear t ≡ true
    → replace (mark k) v (unparse t) ≡ unparse (fill k v t)
unfolding replace unparse fill is_clear
replace-unparse k v (done l) hk ht = scan-clear k v l ht
replace-unparse k v (hole l j t) hk ht =
    scan-no_dollar k v l _ (ground arith)
    ∙ scan-place k v j t hk (ground arith) (ground arith) l (fill_after k v t hk (ground arith))
