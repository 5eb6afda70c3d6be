-- ===== src/RateLimit/Window/History.antt =====
-- One bucket against the history of the hits that it admitted.
use mathlib.Core.List.{append_assoc, append-nil}
use in_work_marketing_os_bac.Base.{
  ℕ, ◌+◌, ◌≤◌, ◌<◌, Bool, true, List, [], ◌∷◌, ◌++◌, ◌≡◌, inl, inr, refl, sym, ap, ◌∙◌, arith, leb,
  ltb, ◌&&◌, if◌then◌else◌, length, count, Bool-cases,
}
use in_work_marketing_os_bac.Base.Lists.{All, All-append, All-map_same}
use in_work_marketing_os_bac.Base.Rows.{count-append}
use in_work_marketing_os_bac.RateLimit.{aged, bucket_ttl, all_stale, drop_aged, admit}

-- A hit in the window of `seconds` that ends at `t`: after `t - seconds`, and not after `t`.
abbrev pub in_window : ℕ → ℕ → ℕ → Bool
in_window t seconds h = ltb t (h + seconds) && leb h t

-- Hits in the order of time.
abbrev pub IsAscending : List ℕ → Type 0
IsAscending [] = Unit {0}
IsAscending (h ∷ hs) = All (λ k. h ≤ k) hs × IsAscending hs

abbrev AllAged : ℕ → ℕ → List ℕ → Type 0
AllAged now seconds hs = All (λ h. aged now seconds h ≡ true) hs

pub append-IsAscending :
    (hs : List ℕ) (now : ℕ) → IsAscending hs → All (λ h. h ≤ now) hs → IsAscending (hs ++ now ∷ [])
append-IsAscending [] now a b = (tt, tt)
append-IsAscending (h ∷ hs) now a b =
    (All-append (λ k. h ≤ k) hs (now ∷ []) a.0 (b.0, tt), append-IsAscending hs now a.1 b.1)

drop_aged-All {κ} :
    (P : ℕ → Type κ) (now s : ℕ) (hs : List ℕ) → All P hs → All P (drop_aged now s hs)
unfolding drop_aged
drop_aged-All P now s [] a = tt
drop_aged-All P now s (h ∷ hs) a = elim (Bool-cases (aged now s h)) [
  | inl e ↦ rw e (drop_aged-All P now s hs a.1)
  | inr e ↦ rw e a
]

pub drop_aged-IsAscending :
    (now s : ℕ) (hs : List ℕ) → IsAscending hs → IsAscending (drop_aged now s hs)
unfolding drop_aged
drop_aged-IsAscending now s [] a = tt
drop_aged-IsAscending now s (h ∷ hs) a = elim (Bool-cases (aged now s h)) [
  | inl e ↦ rw e (drop_aged-IsAscending now s hs a.1)
  | inr e ↦ rw e a
]

-- What is dropped is a prefix of aged hits.
drop_aged_split :
    (now s : ℕ) (hs : List ℕ)
    → (gone : List ℕ) × (hs ≡ gone ++ drop_aged now s hs) × AllAged now s gone
unfolding drop_aged
drop_aged_split now s [] = ([], refl, tt)
drop_aged_split now s (h ∷ hs) = elim (Bool-cases (aged now s h)) [
  | inl e ↦
      (let (gone, same, old) = drop_aged_split now s hs in
        rw e (h ∷ gone, ap (λ ks. h ∷ ks) same, (e, old)))
  | inr e ↦ rw e ([], refl, tt)
]

-- A bucket whose newest hit is stale holds no hit of any window that the limiter uses.
all_stale-AllAged :
    (now s : ℕ) (hs : List ℕ)
    → s ≤ bucket_ttl
    → IsAscending hs
    → all_stale now hs ≡ true
    → AllAged now s hs
unfolding all_stale
all_stale-AllAged now s [] b a e = tt
all_stale-AllAged now s (h ∷ []) b a e = (ground arith, tt)
all_stale-AllAged now s (h ∷ k ∷ hs) b a e =
    let rest = all_stale-AllAged now s (k ∷ hs) b a.1 e in (ground (arith, rest.0, a.0.0), rest)

count-aged : (t now s : ℕ) (hs : List ℕ) → now ≤ t → AllAged now s hs → count (in_window t s) hs ≡ 0
unfolding count
count-aged t now s [] b a = refl
count-aged t now s (h ∷ hs) b a = ground (arith, a.0, count-aged t now s hs b a.1)

count-le-length : (p : ℕ → Bool) (hs : List ℕ) → count p hs ≤ length hs
unfolding count
count-le-length p [] = omega arith
count-le-length p (h ∷ hs) = ground (arith, count-le-length p hs)

-- At `now`, the bucket `hits` holds the admitted hits but for some that have left the window, and no
-- window has more than `times` of them.
pub record Tracks (times s now : ℕ) (admitted hits : List ℕ) : Type 0 where
  pub gone : List ℕ
  pub split : admitted ≡ gone ++ hits
  pub aged_out : AllAged now s gone
  pub ascending : IsAscending hits
  pub past : All (λ h. h ≤ now) hits
  pub bounded : (t : ℕ) → count (in_window t s) admitted ≤ times

module _ {times s now : ℕ} {admitted hits : List ℕ} where
  pub Tracks-later :
      (later : ℕ)
      → now ≤ later
      → Tracks times s now admitted hits
      → Tracks times s later admitted hits
  Tracks-later later b r = record {
    gone = r.gone;
    split = r.split;
    aged_out =
        All-map_same (λ h. aged now s h ≡ true) (λ h. aged later s h ≡ true) (λ h a. ground arith)
          r.gone r.aged_out;
    ascending = r.ascending;
    past = All-map_same (λ h. h ≤ now) (λ h. h ≤ later) (λ h a. omega arith) hits r.past;
    bounded = r.bounded;
  }

  pub Tracks-stale :
      s ≤ bucket_ttl
      → all_stale now hits ≡ true
      → Tracks times s now admitted hits
      → Tracks times s now admitted []
  Tracks-stale b e r = record {
    gone = r.gone ++ hits;
    split = r.split ∙ sym (append-nil (r.gone ++ hits));
    aged_out =
        All-append (λ h. aged now s h ≡ true) r.gone hits r.aged_out
          (all_stale-AllAged now s hits b r.ascending e);
    ascending = tt;
    past = tt;
    bounded = r.bounded;
  }

  Tracks-dropped :
      Tracks times s now admitted hits → Tracks times s now admitted (drop_aged now s hits)
  Tracks-dropped r =
      let (dropped, same, old) = drop_aged_split now s hits in
      record {
        gone = r.gone ++ dropped;
        split =
            r.split
            ∙ ap (λ ks. r.gone ++ ks) same
            ∙ sym (append_assoc r.gone dropped (drop_aged now s hits));
        aged_out = All-append (λ h. aged now s h ≡ true) r.gone dropped r.aged_out old;
        ascending = drop_aged-IsAscending now s hits r.ascending;
        past = drop_aged-All (λ h. h ≤ now) now s hits r.past;
        bounded = r.bounded;
      }

  -- A hit that finds room.
  Tracks-room :
      length hits < times
      → Tracks times s now admitted hits
      → Tracks times s now (admitted ++ now ∷ []) (hits ++ now ∷ [])
  Tracks-room room r = record {
    gone = r.gone;
    split = ap (λ ks. ks ++ now ∷ []) r.split ∙ append_assoc r.gone hits (now ∷ []);
    aged_out = r.aged_out;
    ascending = append-IsAscending hits now r.ascending r.past;
    past = All-append (λ h. h ≤ now) hits (now ∷ []) r.past (omega arith, tt);
    bounded = λ t. within t;
  }
    where
      within : (t : ℕ) → count (in_window t s) (admitted ++ now ∷ []) ≤ times
      within t = elim (Bool-cases (leb now t)) [
        | inr e ↦
            rw (count-append (in_window t s) admitted (now ∷ []))
              (unfold count in ground (arith, r.bounded t))
        | inl e ↦
            rw
              (
                count-append (in_window t s) admitted (now ∷ []),
                r.split,
                count-append (in_window t s) r.gone hits,
              )
              (unfold count in
                ground (
                  arith,
                  count-aged t now s r.gone (ground arith) r.aged_out,
                  count-le-length (in_window t s) hits,
                ))
      ]

-- What `admit` does to a bucket, whichever way it decides.
pub Tracks-admit :
    {times s now : ℕ} {admitted hits : List ℕ}
    → Tracks times s now admitted hits
    → Tracks times s now
        (if (admit now times s hits).1 then admitted ++ now ∷ [] else admitted)
        (admit now times s hits).0
unfolding admit
Tracks-admit {times} {s} {now} {admitted} {hits} r =
    elim (Bool-cases (leb times (length (drop_aged now s hits)))) [
      | inl full ↦ rw (full, admit) (Tracks-dropped r)
      | inr room ↦ rw (room, admit) (Tracks-room (ground arith) (Tracks-dropped r))
    ]
