-- ===== src/Time/Succession.antt =====
-- `civilFromDays` follows the calendar day by day.
use native.Mathlib.Decide.{dec_lt, ℕ_discrete}
use coreinit_nx.Base.{
  ℕ, ◌+◌, ◌-◌, ◌*◌, ◌%◌, ◌^◌, ◌≤◌, ◌<◌, ◌≡◌, ◌⊎◌, refl, sym, ap, ◌∙◌, inl, inr, true, arith,
  Bool-cases,
}
use coreinit_nx.Base.Int.{
  ℤ, pos, pos_part, neg_part, ◌+ℤ◌, ◌-ℤ◌, scale, nat_abs, +ℤ_parts, eq_of_parts, nat_abs,
}
use coreinit_nx.Time.{civil_from_days, year_of_era, days_before_year}
use coreinit_nx.Time.Era.{IsLong, IsDay, year_start}
use coreinit_nx.Time.Floor.{scale_parts, one_part, nat_abs_parts}
use coreinit_nx.Time.Months.{month_in, day_in}
use coreinit_nx.Time.Gregorian.{is_leap, days_in_month, february}
use coreinit_nx.Time.Inverse.{Found, find, year_at, civil_found, is_leap-year_at}
use coreinit_nx.Time.Days.{next_date, date_at, next_date-date_at, next_date-last}

-- The place of a day number, and that of the next.
Found-place :
    (z : ℤ) (f : Found z) → nat_abs z < 2 ^ 38 → civil_from_days z ≡ date_at f.era f.yoe f.doy
Found-place z f l = civil_found z f l

year_after :
    (era : ℤ) (yoe : ℕ)
    → (year_at era yoe 2 ≡ year_at era (yoe + 1) 3)
      × (year_at era 399 2 ≡ year_at (era +ℤ pos 1) 0 3)
unfolding year_at
year_after era yoe =
    let s = scale_parts era 400 in
    let t = scale_parts (era +ℤ pos 1) 400 in
    let o = +ℤ_parts era (pos 1) in
    let a = +ℤ_parts (pos yoe) (scale era 400) in
    let b = +ℤ_parts (pos yoe +ℤ scale era 400) (pos 1) in
    let c = +ℤ_parts (pos (yoe + 1)) (scale era 400) in
    let d = +ℤ_parts (pos (yoe + 1) +ℤ scale era 400) (pos 0) in
    let e = +ℤ_parts (pos 399) (scale era 400) in
    let f = +ℤ_parts (pos 399 +ℤ scale era 400) (pos 1) in
    let g = +ℤ_parts (pos 0) (scale (era +ℤ pos 1) 400) in
    let h = +ℤ_parts (pos 0 +ℤ scale (era +ℤ pos 1) 400) (pos 0) in
    (eq_of_parts _ _ (omega arith), eq_of_parts _ _ (omega arith))

days_after :
    (z era era' : ℤ) (yoe doy yoe' doy' : ℕ)
    → z +ℤ pos 719468 ≡ scale era 146097 +ℤ pos (year_start yoe + doy)
    → pos_part era' * 146097 + neg_part era * 146097 + year_start yoe' + doy'
      ≡ pos_part era * 146097 + neg_part era' * 146097 + year_start yoe + doy + 1
    → (z +ℤ pos 1) +ℤ pos 719468 ≡ scale era' 146097 +ℤ pos (year_start yoe' + doy')
days_after z era era' yoe doy yoe' doy' h k =
    let s = scale_parts era 146097 in
    let t = scale_parts era' 146097 in
    let a = +ℤ_parts z (pos 719468) in
    let b = +ℤ_parts (scale era 146097) (pos (year_start yoe + doy)) in
    let c = +ℤ_parts (scale era' 146097) (pos (year_start yoe' + doy')) in
    let d = +ℤ_parts z (pos 1) in
    let e = +ℤ_parts (z +ℤ pos 1) (pos 719468) in
    let p = ap pos_part h in let n = ap neg_part h in eq_of_parts _ _ (omega arith)

-- Is a day the last of its year, which begins in March?
abbrev IsLast : ℕ → ℕ → Type 0
IsLast yoe doy = ((doy ≡ 365) × IsLong yoe) ⊎ ((doy ≡ 364) × ¬ (IsLong yoe))

year_start-last :
    (yoe doy : ℕ)
    → yoe < 400
    → IsLast yoe doy
    → ((yoe < 399) × (year_start (yoe + 1) ≡ year_start yoe + doy + 1))
      ⊎ ((yoe ≡ 399) × (year_start yoe + doy + 1 ≡ 146097))
year_start-last yoe doy l (inl (d, (four, inl hundred))) = inl (omega arith, omega arith)
year_start-last yoe doy l (inl (d, (four, inr last))) = inr (last, omega arith)
year_start-last yoe doy l (inr (d, h)) = elim (ℕ_discrete ((yoe + 1) % 4) 0) [
  | no a ↦ inl (omega arith, omega arith)
  | yes a ↦ elim (ℕ_discrete ((yoe + 1) % 100) 0) [
    | no b ↦ absurd (h (a, inl b))
    | yes b ↦ elim (ℕ_discrete yoe 399) [
      | yes c ↦ absurd (h (a, inr c))
      | no c ↦ inl (omega arith, omega arith)
    ]
  ]
]

last-february :
    (era : ℤ) (yoe doy : ℕ)
    → yoe < 400
    → IsLast yoe doy
    → (month_in doy ≡ 2) × (days_in_month (year_at era yoe 2) 2 ≤ day_in doy)
last-february era yoe doy l (inl (d, h)) =
    let f = february (year_at era yoe 2) in (ground arith, ground arith)
last-february era yoe doy l (inr (d, h)) =
    let f = february (year_at era yoe 2) in
    let i = is_leap-year_at era yoe 2 l refl in
    elim (Bool-cases (is_leap (year_at era yoe 2))) [
      | inl t ↦ absurd (h (i.0 t))
      | inr t ↦ (ground arith, ground arith)
    ]

-- The day that follows a place: in the year, in the next year or in the next era.
abbrev NextFound : ℤ → ℤ → ℕ → ℕ → Type 0
NextFound z era yoe doy =
    (f : Found (z +ℤ pos 1)) × (next_date (date_at era yoe doy) ≡ date_at f.era f.yoe f.doy)

next-last :
    (z era : ℤ) (yoe doy : ℕ)
    → yoe < 400
    → IsLast yoe doy
    → z +ℤ pos 719468 ≡ scale era 146097 +ℤ pos (year_start yoe + doy)
    → NextFound z era yoe doy
next-last z era yoe doy l v h =
    let (m, d) = last-february era yoe doy l v in
    elim (year_start-last yoe doy l v) [
      | inl (k, e) ↦ (
        record {
          era = era;
          yoe = yoe + 1;
          doy = 0;
          is_day = (omega arith, inl (omega arith));
          days = days_after z era era yoe doy (yoe + 1) 0 h (omega arith);
        },
        next_date-last era era yoe (yoe + 1) doy m d (year_after era yoe).0,
      )
      | inr (k, e) ↦
          let o = +ℤ_parts era (pos 1) in
          (
            record {
              era = era +ℤ pos 1;
              yoe = 0;
              doy = 0;
              is_day = (omega arith, inl (omega arith));
              days = days_after z era (era +ℤ pos 1) yoe doy 0 0 h (omega arith);
            },
            next_date-last era (era +ℤ pos 1) yoe 0 doy m d
                (ap (λ x. year_at era x 2) k ∙ (year_after era yoe).1),
          )
    ]

next-within :
    (z era : ℤ) (yoe doy : ℕ)
    → doy < 365
    → IsDay yoe (doy + 1)
    → (doy ≡ 364 → is_leap (year_at era yoe 2) ≡ true)
    → z +ℤ pos 719468 ≡ scale era 146097 +ℤ pos (year_start yoe + doy)
    → NextFound z era yoe doy
next-within z era yoe doy l v k h = (
  record {
    era = era;
    yoe = yoe;
    doy = doy + 1;
    is_day = v;
    days = days_after z era era yoe doy yoe (doy + 1) h (omega arith);
  },
  next_date-date_at era yoe doy l k,
)

next_found :
    (z era : ℤ) (yoe doy : ℕ)
    → IsDay yoe doy
    → z +ℤ pos 719468 ≡ scale era 146097 +ℤ pos (year_start yoe + doy)
    → NextFound z era yoe doy
next_found z era yoe doy (l, inr (d, long)) h = next-last z era yoe doy l (inl (d, long)) h
next_found z era yoe doy (l, inl d) h =
    let (to, of) = is_leap-year_at era yoe 2 l refl in
    elim (dec_lt doy 364) [
      | yes k ↦ next-within z era yoe doy d (l, inl (omega arith)) (λ e. absurd (omega arith)) h
      | no k ↦
          let e : doy ≡ 364 = omega arith in
          elim (Bool-cases (is_leap (year_at era yoe 2))) [
            | inl t ↦ next-within z era yoe doy d (l, inr (omega arith, to t)) (λ _. t) h
            | inr t ↦
                next-last z era yoe doy l (inr (e, λ long. absurd (ground (arith, of long, t)))) h
          ]
    ]

epoch_date : civil_from_days (pos 0) ≡ record { year = pos 1970; month = 1; day = 1 }
unfolding civil_from_days ◌+ℤ◌ ◌-ℤ◌ year_of_era days_before_year
epoch_date = refl

-- For a day number less than 2 ^ 38 - 1 away from 1970, `civilFromDays` of the next day is the next
-- date by the rules of the calendar; and its day 0 is the first of January 1970.
pub civil_from_days-next_date :
    (z : ℤ)
    → nat_abs z < 2 ^ 38 - 1
    → (civil_from_days (z +ℤ pos 1) ≡ next_date (civil_from_days z))
      × (civil_from_days (pos 0) ≡ record { year = pos 1970; month = 1; day = 1 })
civil_from_days-next_date z l =
    let f = find z in
    let (g, e) = next_found z f.era f.yoe f.doy f.is_day f.days in
    let a = +ℤ_parts z (pos 1) in
    let b = nat_abs_parts z in
    let c = nat_abs_parts (z +ℤ pos 1) in
    let d = one_part z in
    let h = one_part (z +ℤ pos 1) in
    (
      Found-place (z +ℤ pos 1) g (omega arith)
          ∙ sym e
          ∙ ap next_date (sym (Found-place z f (omega arith))),
      epoch_date,
    )
