-- ===== src/Chase/Quarters/Choice.antt =====
-- Which quarter is chosen, by the days on which the quarters end and fall due.
use mtd_backend.Common.{
  insert, sort, head, ℕ, ◌+◌, ◌≤◌, ◌<◌, true, false, ◌&&◌, ltb, leb, [], ◌∷◌, ◌≡◌, ◌∙◌, refl, arith,
  find_all, Bool-cases, inl, inr,
}
use mtd_backend.Chase.Calendar.{lt_z-diff, lt_z-pos, lt_z-below}
use mtd_backend.Chase.Quarters.{
  Quarter, q1, q2, q3, q4, QuarterInfo, quarter_info, is_overdue, has_ended, is_upcoming,
  more_overdue, longer_ended, ends_before, first_of,
}

-- The tests, by the numbers of the days.
module _ (t y s e d : ℕ) (q : Quarter) where
  is_overdue_lem : is_overdue (quarter_info t q y s e d) ≡ (ltb d t && leb t (d + 180))
  unfolding is_overdue quarter_info
  is_overdue_lem = rw (lt_z-pos t d 0, lt_z-pos t d 180) (ground arith)

  has_ended_lem : has_ended (quarter_info t q y s e d) ≡ (ltb e t && leb t d)
  unfolding has_ended quarter_info
  has_ended_lem = rw (lt_z-below t e, lt_z-pos t d 0) (ground arith)

  is_upcoming_lem : is_upcoming (quarter_info t q y s e d) ≡ leb t e
  unfolding is_upcoming quarter_info
  is_upcoming_lem = lt_z-below t e

module _ (t y s e d y' s' e' d' : ℕ) (q q' : Quarter) where
  more_overdue_lem :
      more_overdue (quarter_info t q y s e d) (quarter_info t q' y' s' e' d') ≡ ltb d d'
  unfolding more_overdue quarter_info
  more_overdue_lem = lt_z-diff t d' d

  longer_ended_lem :
      longer_ended (quarter_info t q y s e d) (quarter_info t q' y' s' e' d') ≡ ltb e e'
  unfolding longer_ended quarter_info
  longer_ended_lem = lt_z-diff t e' e

  ends_before_lem :
      ends_before (quarter_info t q y s e d) (quarter_info t q' y' s' e' d') ≡ ltb e e'
  unfolding ends_before quarter_info
  ends_before_lem = refl

-- The choice among the quarters of a year whose days are in order, on day `t`.
module _ (t y s1 e1 d1 s2 e2 d2 s3 e3 d3 s4 e4 d4 : ℕ) (fallback : QuarterInfo) where
  abbrev first : QuarterInfo
  first = quarter_info t q1 y s1 e1 d1

  abbrev second : QuarterInfo
  second = quarter_info t q2 y s2 e2 d2

  abbrev third : QuarterInfo
  third = quarter_info t q3 y s3 e3 d3

  abbrev fourth : QuarterInfo
  fourth = quarter_info t q4 y s4 e4 d4

  unfoldable pub chosen : QuarterInfo
  chosen =
      let quarters = first ∷ second ∷ third ∷ fourth ∷ [] in
      first_of (head (sort more_overdue (find_all is_overdue quarters)))
        (head (sort longer_ended (find_all has_ended quarters)))
        (head (sort ends_before (find_all is_upcoming quarters))) fallback

  -- Overdue for half a year at most: the first quarter goes before the others.
  pub chosen-q1_overdue : d1 < t → t ≤ d1 + 180 → d1 < d2 → d1 + 180 < d3 → d3 < d4 → chosen ≡ first
  unfolding chosen first_of sort insert find_all
  chosen-q1_overdue late window a b c =
      let o1 : is_overdue first ≡ true = is_overdue_lem t y s1 e1 d1 q1 ∙ ground arith in
      let o3 : is_overdue third ≡ false = is_overdue_lem t y s3 e3 d3 q3 ∙ ground arith in
      let o4 : is_overdue fourth ≡ false = is_overdue_lem t y s4 e4 d4 q4 ∙ ground arith in
      let m : more_overdue second first ≡ false =
        more_overdue_lem t y s2 e2 d2 y s1 e1 d1 q2 q1 ∙ ground arith in
      elim (Bool-cases (is_overdue second)) [
        | inl also ↦ rw (o1, also, o3, o4, m) refl
        | inr still ↦ rw (o1, still, o3, o4) refl
      ]

  -- The first quarter is out of the window, and the second is in it.
  pub chosen-q2_overdue : d1 + 180 < t → d2 < t → t ≤ d2 + 180 → d2 < d3 → t ≤ d4 → chosen ≡ second
  unfolding chosen first_of sort insert find_all
  chosen-q2_overdue old late window b c =
      let o1 : is_overdue first ≡ false = is_overdue_lem t y s1 e1 d1 q1 ∙ ground arith in
      let o2 : is_overdue second ≡ true = is_overdue_lem t y s2 e2 d2 q2 ∙ ground arith in
      let o4 : is_overdue fourth ≡ false = is_overdue_lem t y s4 e4 d4 q4 ∙ ground arith in
      let m : more_overdue third second ≡ false =
        more_overdue_lem t y s3 e3 d3 y s2 e2 d2 q3 q2 ∙ ground arith in
      elim (Bool-cases (is_overdue third)) [
        | inl also ↦ rw (o1, o2, also, o4, m) refl
        | inr still ↦ rw (o1, o2, still, o4) refl
      ]

  -- No deadline has passed.
  not_overdue :
      t ≤ d1
      → d1 < d2
      → d2 < d3
      → d3 < d4
      → find_all is_overdue (first ∷ second ∷ third ∷ fourth ∷ []) ≡ []
  unfolding find_all
  not_overdue early a b c =
      let o1 : is_overdue first ≡ false = is_overdue_lem t y s1 e1 d1 q1 ∙ ground arith in
      let o2 : is_overdue second ≡ false = is_overdue_lem t y s2 e2 d2 q2 ∙ ground arith in
      let o3 : is_overdue third ≡ false = is_overdue_lem t y s3 e3 d3 q3 ∙ ground arith in
      let o4 : is_overdue fourth ≡ false = is_overdue_lem t y s4 e4 d4 q4 ∙ ground arith in
      rw (o1, o2, o3, o4) refl

  -- The first quarter is current, or ended before its deadline.
  pub chosen-q1_early :
      t ≤ d1 → e1 < e2 → e2 < e3 → e3 < e4 → d1 < e2 → d1 < d2 → d2 < d3 → d3 < d4 → chosen ≡ first
  unfolding chosen first_of sort insert find_all
  chosen-q1_early early a b c o d e f =
      let n1 = not_overdue early d e f in
      let h2 : has_ended second ≡ false = has_ended_lem t y s2 e2 d2 q2 ∙ ground arith in
      let h3 : has_ended third ≡ false = has_ended_lem t y s3 e3 d3 q3 ∙ ground arith in
      let h4 : has_ended fourth ≡ false = has_ended_lem t y s4 e4 d4 q4 ∙ ground arith in
      let u2 : is_upcoming second ≡ true = is_upcoming_lem t y s2 e2 d2 q2 ∙ ground arith in
      let u3 : is_upcoming third ≡ true = is_upcoming_lem t y s3 e3 d3 q3 ∙ ground arith in
      let u4 : is_upcoming fourth ≡ true = is_upcoming_lem t y s4 e4 d4 q4 ∙ ground arith in
      let x : ends_before second first ≡ false =
        ends_before_lem t y s2 e2 d2 y s1 e1 d1 q2 q1 ∙ ground arith in
      let y' : ends_before third second ≡ false =
        ends_before_lem t y s3 e3 d3 y s2 e2 d2 q3 q2 ∙ ground arith in
      let z : ends_before fourth third ≡ false =
        ends_before_lem t y s4 e4 d4 y s3 e3 d3 q4 q3 ∙ ground arith in
      elim (Bool-cases (ltb e1 t)) [
        | inl ended ↦
            let h1 : has_ended first ≡ true = has_ended_lem t y s1 e1 d1 q1 ∙ ground arith in
            rw (n1, h1, h2, h3, h4) refl
        | inr current ↦
            let h1 : has_ended first ≡ false = has_ended_lem t y s1 e1 d1 q1 ∙ ground arith in
            let u1 : is_upcoming first ≡ true = is_upcoming_lem t y s1 e1 d1 q1 ∙ ground arith in
            rw (n1, h1, h2, h3, h4, u1, u2, u3, u4, z, y', x) refl
      ]
