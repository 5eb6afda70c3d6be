-- ===== src/Uploads/Names.antt =====
-- File names after `sanitize_filename`.
use in_work_marketing_os_bac.Base.{
  ℕ, zero, suc, inl, inr, ◌≤◌, Bool, true, false, [], ◌∷◌, ◌≡◌, ◌≢◌, refl, arith, map, any, length,
  take, Bool-cases,
}
use in_work_marketing_os_bac.Base.Lists.{All, length-take_le}
use in_work_marketing_os_bac.Model.Tables.{Text}
use in_work_marketing_os_bac.Uploads.{
  lstrip, rstrip, strip, is_slash, is_dot, is_safe, safe_char, forward, basename, or_file,
  sanitize_filename,
}

abbrev pub NoLeadingDot : Text → Type 0
NoLeadingDot [] = Unit {0}
NoLeadingDot (c ∷ cs) = is_dot c ≡ false

abbrev AllSafe : Text → Type 0
AllSafe t = All (λ c. is_safe c ≡ true) t

-- A name of one path segment that hides no file.
pub record IsSafeName (t : Text) : Type 0 where
  pub named : t ≢ []
  pub short : length t ≤ 255
  pub safe : All (λ c. is_safe c ≡ true) t
  pub shown : NoLeadingDot t

map-AllSafe : (t : Text) → AllSafe (map safe_char t)
map-AllSafe [] = tt
map-AllSafe (c ∷ cs) = (ground arith, map-AllSafe cs)

lstrip-AllSafe : (p : ℕ → Bool) (t : Text) → AllSafe t → AllSafe (lstrip p t)
unfolding lstrip
lstrip-AllSafe p [] a = tt
lstrip-AllSafe p (c ∷ cs) a = elim (Bool-cases (p c)) [
  | inl e ↦ rw e (lstrip-AllSafe p cs a.1)
  | inr e ↦ rw e a
]

lstrip-NoLeadingDot : (t : Text) → NoLeadingDot (lstrip is_dot t)
unfolding lstrip
lstrip-NoLeadingDot [] = tt
lstrip-NoLeadingDot (c ∷ cs) = elim (Bool-cases (is_dot c)) [
  | inl e ↦ rw e (lstrip-NoLeadingDot cs)
  | inr e ↦ rw e e
]

or_file-AllSafe : (t : Text) → AllSafe t → AllSafe (or_file t)
or_file-AllSafe [] a = (refl, (refl, (refl, (refl, tt))))
or_file-AllSafe (c ∷ cs) a = a

take-AllSafe : (n : ℕ) (t : Text) → AllSafe t → AllSafe (take n t)
take-AllSafe zero t a = tt
take-AllSafe (suc n) [] a = tt
take-AllSafe (suc n) (c ∷ cs) a = (a.0, take-AllSafe n cs a.1)

-- The cut of a name that is never empty.
or_file-shown : (t : Text) → NoLeadingDot t → NoLeadingDot (take 255 (or_file t))
or_file-shown [] d = refl
or_file-shown (c ∷ cs) d = d

or_file-named : (t : Text) → take 255 (or_file t) ≢ []
or_file-named [] = cc
or_file-named (c ∷ cs) = cc

sanitize_filename-IsSafeName :
    (is_space : ℕ → Bool) (name : Text) → IsSafeName (sanitize_filename is_space name)
unfolding sanitize_filename
sanitize_filename-IsSafeName is_space name =
    let cleaned : Text = map safe_char (basename (strip is_space (map forward name))) in
    record {
      named = or_file-named (lstrip is_dot cleaned);
      short = length-take_le 255 (or_file (lstrip is_dot cleaned));
      safe =
          take-AllSafe 255 (or_file (lstrip is_dot cleaned))
            (or_file-AllSafe _ (lstrip-AllSafe is_dot cleaned (map-AllSafe _)));
      shown = or_file-shown (lstrip is_dot cleaned) (lstrip-NoLeadingDot cleaned);
    }

map_same : (f : ℕ → ℕ) (t : Text) → All (λ c. f c ≡ c) t → map f t ≡ t
map_same f [] a = refl
map_same f (c ∷ cs) a = ground (arith, map_same f cs a.1)

take_whole : (n : ℕ) (t : Text) → length t ≤ n → take n t ≡ t
take_whole zero [] h = refl
take_whole zero (c ∷ cs) h = absurd (omega arith)
take_whole (suc n) [] h = refl
take_whole (suc n) (c ∷ cs) h = ground (arith, take_whole n cs)

basename_whole : (t : Text) → any is_slash t ≡ false → basename t ≡ t
unfolding basename
basename_whole [] h = refl
basename_whole (c ∷ cs) h = ground arith

-- A text no end of which passes a test is not stripped.
lstrip_whole : (p : ℕ → Bool) (t : Text) → All (λ c. p c ≡ false) t → lstrip p t ≡ t
unfolding lstrip
lstrip_whole p [] a = refl
lstrip_whole p (c ∷ cs) a = rw a.0 refl

rstrip_whole : (p : ℕ → Bool) (t : Text) → All (λ c. p c ≡ false) t → rstrip p t ≡ t
unfolding rstrip
rstrip_whole p [] a = refl
rstrip_whole p (c ∷ cs) a = ground (arith, rstrip_whole p cs a.1)

lstrip_shown : (t : Text) → NoLeadingDot t → lstrip is_dot t ≡ t
unfolding lstrip
lstrip_shown [] d = refl
lstrip_shown (c ∷ cs) d = rw d refl

or_file_named : (t : Text) → t ≢ [] → or_file t ≡ t
or_file_named [] n = absurd (n refl)
or_file_named (c ∷ cs) n = refl

safe-no_slash : (t : Text) → AllSafe t → any is_slash t ≡ false
safe-no_slash [] a = refl
safe-no_slash (c ∷ cs) a = ground (arith, safe-no_slash cs a.1)

-- No safe character is a space.
abbrev pub SafeIsInk : (ℕ → Bool) → Type 0
SafeIsInk is_space = (c : ℕ) → is_safe c ≡ true → is_space c ≡ false

All-safe {κ} :
    (P : ℕ → Type κ) (t : Text) → ((c : ℕ) → is_safe c ≡ true → P c) → AllSafe t → All P t
All-safe P [] f a = tt
All-safe P (c ∷ cs) f a = (f c a.0, All-safe P cs f a.1)

-- A safe name is kept.
sanitize_filename_kept :
    (is_space : ℕ → Bool) (t : Text)
    → SafeIsInk is_space
    → IsSafeName t
    → sanitize_filename is_space t ≡ t
unfolding sanitize_filename strip
sanitize_filename_kept is_space t ink n =
    let no_space : All (λ c. is_space c ≡ false) t =
      All-safe (λ c. is_space c ≡ false) t ink n.safe in
    rw
      (
        map_same forward t (All-safe (λ c. forward c ≡ c) t (λ c h. ground arith) n.safe),
        lstrip_whole is_space t no_space,
        rstrip_whole is_space t no_space,
        basename_whole t (safe-no_slash t n.safe),
        map_same safe_char t (All-safe (λ c. safe_char c ≡ c) t (λ c h. ground arith) n.safe),
        lstrip_shown t n.shown,
        or_file_named t n.named,
      )
      (take_whole 255 t n.short)

-- Whatever the given name: the sanitized one is not empty, has at most 255 characters, all of them
-- letters, digits, dots, underscores or dashes, does not start with a dot, and is kept when it is sanitized again.
pub sanitize_filename_safe :
    (is_space : ℕ → Bool) (name : Text)
    → SafeIsInk is_space
    → IsSafeName (sanitize_filename is_space name)
      × (sanitize_filename is_space (sanitize_filename is_space name)
          ≡ sanitize_filename is_space name)
sanitize_filename_safe is_space name ink = (
  sanitize_filename-IsSafeName is_space name,
  sanitize_filename_kept is_space (sanitize_filename is_space name) ink
      (sanitize_filename-IsSafeName is_space name),
)
