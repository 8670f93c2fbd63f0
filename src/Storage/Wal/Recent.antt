-- ===== src/Storage/Wal/Recent.antt =====
-- The positions that are held of the newest frames (src/storage/wal.rs): a range that is answered
-- from them holds every frame of the log in it, and no other.
use dewdb.Prelude.{
  ℕ, min, ◌≤◌, ◌<◌, ◌≡◌, refl, sym, ap, ◌∙◌, inl, inr, Bool, ◌&&◌, List, [], ◌∷◌, ◌++◌, leb, ltb,
  ◌==◌, if◌then◌else◌, keep, keep-append, length, none, some, arith, Option-cases, Bool-cases,
}
use mathlib.Core.Path.{subst}
use dewdb.Storage.Wal.{
  FrameSpot, RecentFrames, recent_frames, reset, back, push_back, push, cut_back, cut, skip_to,
  take_through, range,
}

-- The spots ascend from above a position.
abbrev pub IsAscFrom : ℕ → List FrameSpot → Type 0
IsAscFrom b [] = Unit
IsAscFrom b (s ∷ spots) = (b < s.lsn) × IsAscFrom s.lsn spots

abbrev pub above_floor : ℕ → FrameSpot → Bool
above_floor floor s = ltb floor s.lsn

-- The log has its frames in order, and what is held are those above the floor.
abbrev pub IsHeld : List FrameSpot → RecentFrames → Type 0
IsHeld log r = IsAscFrom 0 log × (r.spots ≡ keep (above_floor r.floor) log)

-- The frames of the log in `(after, up]`.
abbrev pub between : ℕ → ℕ → FrameSpot → Bool
between after up s = ltb after s.lsn && leb s.lsn up

IsAscFrom-weaker : (b c : ℕ) (log : List FrameSpot) → c ≤ b → IsAscFrom b log → IsAscFrom c log
IsAscFrom-weaker b c [] h a = tt
IsAscFrom-weaker b c (s ∷ log) h a = ground arith

none_through :
    (k up b : ℕ) (log : List FrameSpot) → up ≤ b → IsAscFrom b log → keep (between k up) log ≡ []
none_through k up b [] h a = refl
none_through k up b (s ∷ log) h a = ground (arith, none_through k up s.lsn log)

all_above :
    (n b : ℕ) (log : List FrameSpot) → n ≤ b → IsAscFrom b log → keep (above_floor n) log ≡ log
all_above n b [] h a = refl
all_above n b (s ∷ log) h a = ground (arith, all_above n s.lsn log)

skip_lem :
    (n b : ℕ) (log : List FrameSpot) → IsAscFrom b log → skip_to n log ≡ keep (above_floor n) log
unfolding skip_to
skip_lem n b [] a = refl
skip_lem n b (s ∷ log) a = ground (arith, skip_lem n s.lsn log, all_above n s.lsn log)

take_lem :
    (n up b : ℕ) (log : List FrameSpot)
    → n ≤ b
    → IsAscFrom b log
    → take_through up log ≡ keep (between n up) log
unfolding take_through
take_lem n up b [] h a = refl
take_lem n up b (s ∷ log) h a = ground (arith, take_lem n up s.lsn log, none_through n up s.lsn log)

keep-IsAscFrom :
    (n b : ℕ) (log : List FrameSpot) → IsAscFrom b log → IsAscFrom b (keep (above_floor n) log)
keep-IsAscFrom n b [] a = tt
keep-IsAscFrom n b (s ∷ log) a =
    ground (arith, keep-IsAscFrom n s.lsn log, IsAscFrom-weaker s.lsn b (keep (above_floor n) log))

above-IsAscFrom :
    (n b : ℕ) (log : List FrameSpot) → IsAscFrom b log → IsAscFrom n (keep (above_floor n) log)
above-IsAscFrom n b [] a = tt
above-IsAscFrom n b (s ∷ log) a =
    ground (arith, keep-IsAscFrom n s.lsn log, above-IsAscFrom n s.lsn log)

pub keep_twice :
    (n m : ℕ) (log : List FrameSpot)
    → n ≤ m
    → keep (above_floor m) (keep (above_floor n) log) ≡ keep (above_floor m) log
keep_twice n m [] h = refl
keep_twice n m (s ∷ log) h = ground (arith, keep_twice n m log h)

keep-between :
    (n up : ℕ) (log : List FrameSpot)
    → keep (between n up) (keep (above_floor n) log) ≡ keep (between n up) log
keep-between n up [] = refl
keep-between n up (s ∷ log) = ground (arith, keep-between n up log)

range_of_log :
    (n up floor : ℕ) (log : List FrameSpot)
    → floor ≤ n
    → IsAscFrom 0 log
    → take_through up (skip_to n (keep (above_floor floor) log)) ≡ keep (between n up) log
range_of_log n up floor log h a =
    ap (take_through up) (
      skip_lem n 0 (keep (above_floor floor) log) (keep-IsAscFrom floor 0 log a)
      ∙ keep_twice floor n log h)
    ∙ take_lem n up n (keep (above_floor n) log) (omega arith) (above-IsAscFrom n 0 log a)
    ∙ keep-between n up log

-- A range that reaches below the floor is refused, and any other is answered with exactly the
-- frames of the log in it.
range_lem :
    (after up : ℕ) (log : List FrameSpot) (r : RecentFrames)
    → IsHeld log r
    → range after up r ≡ (if ltb after r.floor then none else some (keep (between after up) log))
unfolding range
range_lem after up log r (a, e) = elim (Bool-cases (ltb after r.floor)) [
  | inl b ↦ rw b refl
  | inr b ↦ rw (b, e) (ap some (range_of_log after up r.floor log (ground arith) a))
]

-- The log is cut behind a position.
abbrev pub through : ℕ → FrameSpot → Bool
through prev s = leb s.lsn prev

none_kept :
    (prev b : ℕ) (log : List FrameSpot) → prev ≤ b → IsAscFrom b log → keep (through prev) log ≡ []
none_kept prev b [] h a = refl
none_kept prev b (s ∷ log) h a = ground (arith, none_kept prev s.lsn log)

cut_lem :
    (prev floor b : ℕ) (log : List FrameSpot)
    → IsAscFrom b log
    → cut_back prev (keep (above_floor floor) log)
      ≡ keep (above_floor (min floor prev)) (keep (through prev) log)
unfolding cut_back
cut_lem prev floor b [] a = refl
cut_lem prev floor b (s ∷ log) a =
    ground (arith, cut_lem prev floor s.lsn log, none_kept prev s.lsn log)

through-IsAscFrom :
    (prev b : ℕ) (log : List FrameSpot) → IsAscFrom b log → IsAscFrom b (keep (through prev) log)
through-IsAscFrom prev b [] a = tt
through-IsAscFrom prev b (s ∷ log) a =
    ground
      (arith, through-IsAscFrom prev s.lsn log, IsAscFrom-weaker s.lsn b (keep (through prev) log))

cut-IsHeld :
    (prev : ℕ) (log : List FrameSpot) (r : RecentFrames)
    → IsHeld log r
    → IsHeld (keep (through prev) log) (cut prev r)
unfolding cut
cut-IsHeld prev log r (a, e) =
    (through-IsAscFrom prev 0 log a, ap (cut_back prev) e ∙ cut_lem prev r.floor 0 log a)

-- The position of the newest frame.
abbrev pub tail_lsn : ℕ → List FrameSpot → ℕ
tail_lsn b [] = b
tail_lsn b (s ∷ log) = tail_lsn s.lsn log

snoc-IsAscFrom :
    (spot : FrameSpot) (b : ℕ) (log : List FrameSpot)
    → IsAscFrom b log
    → tail_lsn b log < spot.lsn
    → IsAscFrom b (log ++ spot ∷ [])
snoc-IsAscFrom spot b [] a h = (h, tt)
snoc-IsAscFrom spot b (s ∷ log) a h = (a.0, snoc-IsAscFrom spot s.lsn log a.1 h)

at_most_tail :
    (n b : ℕ) (log : List FrameSpot)
    → IsAscFrom b log
    → tail_lsn b log ≤ n
    → (b ≤ n) × (keep (above_floor n) log ≡ [])
at_most_tail n b [] a h = (h, refl)
at_most_tail n b (s ∷ log) a h = ground (arith, at_most_tail n s.lsn log a.1 h)

-- What follows the first spot that is held.
after_oldest :
    (floor : ℕ) (log spots : List FrameSpot) (oldest : FrameSpot)
    → IsAscFrom 0 log
    → keep (above_floor floor) log ≡ oldest ∷ spots
    → spots ≡ keep (above_floor oldest.lsn) log
after_oldest floor log spots oldest a e =
    let held : IsAscFrom floor (oldest ∷ spots) =
      subst (IsAscFrom floor) e (above-IsAscFrom floor 0 log a) in
    sym (
      sym (keep_twice floor oldest.lsn log (omega (arith, held.0)))
      ∙ ap (keep (above_floor oldest.lsn)) e
      ∙ ground (arith, all_above oldest.lsn oldest.lsn spots (omega arith) held.1))

reset-IsHeld :
    (spot : FrameSpot) (log : List FrameSpot)
    → IsAscFrom 0 log
    → tail_lsn 0 log < spot.lsn
    → IsHeld (log ++ spot ∷ []) (reset spot.lsn)
unfolding reset
reset-IsHeld spot log a h = (
  snoc-IsAscFrom spot 0 log a h,
  sym (
      keep-append (above_floor spot.lsn) log (spot ∷ [])
      ∙ ground (arith, at_most_tail spot.lsn 0 log a)),
)

below_tail : (b : ℕ) (log : List FrameSpot) → IsAscFrom b log → b ≤ tail_lsn b log
below_tail b [] a = omega arith
below_tail b (s ∷ log) a = omega (arith, a.0, below_tail s.lsn log a.1)

oldest_below :
    (floor n b : ℕ) (log spots : List FrameSpot) (oldest : FrameSpot)
    → IsAscFrom b log
    → tail_lsn b log < n
    → keep (above_floor floor) log ≡ oldest ∷ spots
    → oldest.lsn < n
oldest_below floor n b [] spots oldest a h e = absurd (ground arith)
oldest_below floor n b (s ∷ log) spots oldest a h e =
    ground (arith, oldest_below floor n s.lsn log spots oldest a.1 h, below_tail s.lsn log a.1)

keep_snoc :
    (spot : FrameSpot) (floor : ℕ) (log : List FrameSpot)
    → floor < spot.lsn
    → keep (above_floor floor) (log ++ spot ∷ []) ≡ keep (above_floor floor) log ++ spot ∷ []
keep_snoc spot floor log f = keep-append (above_floor floor) log (spot ∷ []) ∙ ground arith

push_back-IsHeld :
    (spot : FrameSpot) (log : List FrameSpot) (r : RecentFrames)
    → IsHeld log r
    → tail_lsn 0 log < spot.lsn
    → r.floor < spot.lsn
    → IsHeld (log ++ spot ∷ []) (push_back spot r)
unfolding push_back
push_back-IsHeld spot log r (a, e) h f = (snoc-IsAscFrom spot 0 log a h, go r.spots e)
  where
    go :
        (spots : List FrameSpot)
        → spots ≡ keep (above_floor r.floor) log
        → (push_back spot (record { floor = r.floor; spots = spots })).spots
          ≡ keep
              (above_floor (push_back spot (record { floor = r.floor; spots = spots })).floor)
              (log ++ spot ∷ [])
    go [] e = ap (λ l. l ++ spot ∷ []) e ∙ sym (keep_snoc spot r.floor log f)
    go (oldest ∷ spots) e = elim (Bool-cases (length (oldest ∷ spots) == recent_frames)) [
      | inl full ↦ rw full (
          ap (λ l. l ++ spot ∷ []) (after_oldest r.floor log spots oldest a (sym e))
          ∙ sym (
              keep_snoc spot oldest.lsn log
                (oldest_below r.floor spot.lsn 0 log spots oldest a h (sym e))))
      | inr room ↦ rw room (ap (λ l. l ++ spot ∷ []) e ∙ sym (keep_snoc spot r.floor log f))
    ]

push-IsHeld :
    (spot : FrameSpot) (log : List FrameSpot) (r : RecentFrames)
    → IsHeld log r
    → tail_lsn 0 log < spot.lsn
    → r.floor < spot.lsn
    → IsHeld (log ++ spot ∷ []) (push spot r)
unfolding push
push-IsHeld spot log r held h f = elim (Option-cases (back r.spots)) [
  | inl e ↦ rw (e, push) (push_back-IsHeld spot log r held h f)
  | inr (last, e) ↦ (elim (Bool-cases (leb spot.lsn last.lsn)) [
    | inl b ↦ rw (e, b, push) (reset-IsHeld spot log held.0 h)
    | inr b ↦ rw (e, b, push) (push_back-IsHeld spot log r held h f)
  ])
]

-- What is held of the newest frames is never wrong. It stays so when a frame goes behind the log,
-- above every frame of it and the floor, and when the log is cut behind a position; and a range is
-- refused if it reaches below the floor, and else is answered with exactly the frames of the log
-- in it.
pub recent_frames_lem :
    (log : List FrameSpot) (r : RecentFrames) (spot : FrameSpot) (prev after up : ℕ)
    → IsHeld log r
    → tail_lsn 0 log < spot.lsn
    → r.floor < spot.lsn
    → IsHeld (log ++ spot ∷ []) (push spot r)
      × IsHeld (keep (through prev) log) (cut prev r)
      × (range after up r
          ≡ (if ltb after r.floor then none else some (keep (between after up) log)))
recent_frames_lem log r spot prev after up held h f =
    (push-IsHeld spot log r held h f, cut-IsHeld prev log r held, range_lem after up log r held)
