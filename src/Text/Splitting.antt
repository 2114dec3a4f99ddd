-- ===== src/Text/Splitting.antt =====
-- Splitting a text that was built from parts.
use nest_quickfix.Prelude.{
  ℕ, ◌≡◌, refl, ap, ◌∙◌, false, List, [], ◌∷◌, ◌++◌, All, arith, append_assoc, append-nil,
}
use nest_quickfix.Text.Defs.{Text, soh, starts_with, split_from, split, push_head, Lacks}

-- A text in front of the first part.
abbrev pub prepend : Text → List Text → List Text
prepend [] ts = ts
prepend (c ∷ p) ts = push_head c (prepend p ts)

prepend-cons : (p q : Text) (ts : List Text) → prepend p (q ∷ ts) ≡ (p ++ q) ∷ ts
prepend-cons [] q ts = refl
prepend-cons (c ∷ p) q ts = rw (prepend-cons p q ts)

-- Characters that cannot begin the separator go to the part at hand.
pub split_from-Lacks :
    (d : ℕ) (sep p s : Text)
    → Lacks d p
    → split_from (d ∷ sep) 0 (p ++ s) ≡ prepend p (split_from (d ∷ sep) 0 s)
unfolding split_from starts_with
split_from-Lacks d sep [] s h = refl
split_from-Lacks d sep (c ∷ p) s (n, h) = ground (arith, split_from-Lacks d sep p s h)

-- At a character that occurs only as the separator, the text is cut.
pub split-cons :
    (d : ℕ) (p s : Text) → Lacks d p → split (d ∷ []) (p ++ d ∷ s) ≡ p ∷ split (d ∷ []) s
unfolding split
split-cons d p s h =
    rw (split_from-Lacks d [] p (d ∷ s) h)
      (ap (prepend p) (cut d s) ∙ prepend-cons p [] _ ∙ rw append-nil)
  where
    cut : (d : ℕ) (s : Text) → split_from (d ∷ []) 0 (d ∷ s) ≡ [] ∷ split_from (d ∷ []) 0 s
    cut d s = ground arith

pub split_last : (d : ℕ) (p : Text) → Lacks d p → split (d ∷ []) p ≡ p ∷ []
unfolding split
split_last d p h =
    rw (← append-nil p) (split_from-Lacks d [] p [] h ∙ prepend-cons p [] [] ∙ rw append-nil)

-- Lines, each followed by the separator; and the same without the last separator.
abbrev pub terminated : List Text → Text
terminated [] = []
terminated (l ∷ ls) = l ++ soh ∷ terminated ls

abbrev pub joined : Text → List Text → Text
joined l [] = l
joined l (k ∷ ls) = l ++ soh ∷ joined k ls

pub split-terminated :
    (ls : List Text) → All (Lacks soh) ls → split (soh ∷ []) (terminated ls) ≡ ls ++ [] ∷ []
split-terminated [] h = unfold split in refl
split-terminated (l ∷ ls) (n, h) =
    split-cons soh l (terminated ls) n ∙ ap (λ ts. l ∷ ts) (split-terminated ls h)

pub split-joined :
    (l : Text) (ls : List Text)
    → Lacks soh l
    → All (Lacks soh) ls
    → split (soh ∷ []) (joined l ls) ≡ l ∷ ls
split-joined l [] n h = split_last soh l n
split-joined l (k ∷ ls) n (m, h) =
    split-cons soh l (joined k ls) n ∙ ap (λ ts. l ∷ ts) (split-joined k ls m h)

-- The separator of `processData`: the start of a message behind the end of another.
abbrev pub start : Text
start = 56 ∷ 61 ∷ []

abbrev pub boundary : Text
boundary = soh ∷ start

-- The text cannot be taken for the start of a message, whatever follows its line.
abbrev pub Inner : Text → Type 0
Inner l = (s : Text) → starts_with (l ++ soh ∷ s) start ≡ false

not_boundary :
    (s : Text)
    → starts_with s start ≡ false
    → split_from boundary 0 (soh ∷ s) ≡ push_head soh (split_from boundary 0 s)
unfolding split_from starts_with
not_boundary s h = ground arith

-- The lines of a message up to the start of the next are one piece.
pub split-next :
    (l : Text) (ls : List Text) (s : Text)
    → Lacks soh l
    → All (λ k. Lacks soh k × Inner k) ls
    → split boundary (l ++ soh ∷ (terminated ls ++ (start ++ s))) ≡ joined l ls ∷ split boundary s
unfolding split
split-next l [] s n h =
    split_from-Lacks soh start l _ n
    ∙ (unfold split_from starts_with in prepend-cons l [] _ ∙ rw append-nil)
split-next l (k ∷ ls) s n ((m, inner), h) =
    split_from-Lacks soh start l _ n
    ∙ ap (prepend l) (rest ∙ ap (push_head soh) (split-next k ls s m h))
    ∙ prepend-cons l (soh ∷ joined k ls) _
  where
    rest :
        split_from boundary 0 (soh ∷ (terminated (k ∷ ls) ++ (start ++ s)))
        ≡ push_head soh (split_from boundary 0 (k ++ soh ∷ (terminated ls ++ (start ++ s))))
    rest = rw (append_assoc k (soh ∷ terminated ls) (start ++ s)) (
        not_boundary (k ++ soh ∷ (terminated ls ++ (start ++ s)))
          (inner (terminated ls ++ (start ++ s))))

pub split-end :
    (l : Text) (ls : List Text)
    → Lacks soh l
    → All (λ k. Lacks soh k × Inner k) ls
    → split boundary (l ++ soh ∷ terminated ls) ≡ terminated (l ∷ ls) ∷ []
unfolding split
split-end l [] n h =
    split_from-Lacks soh start l _ n
    ∙ (unfold split_from starts_with in prepend-cons l (soh ∷ []) [])
split-end l (k ∷ ls) n ((m, inner), h) =
    split_from-Lacks soh start l _ n
    ∙ ap (prepend l) (
        not_boundary (k ++ soh ∷ terminated ls) (inner (terminated ls))
        ∙ ap (push_head soh) (split-end k ls m h))
    ∙ prepend-cons l (soh ∷ terminated (k ∷ ls)) []
