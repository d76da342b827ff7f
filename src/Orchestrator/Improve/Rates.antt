-- ===== src/Orchestrator/Improve/Rates.antt =====
-- The rates of a window are rates.
use fund.Gate.Risk.{Arith}
use fund.Orchestrator.Improve.{
  join_count, confidences, covers, within, spoke, behaviour, rate, n_covered, n_offered_in,
  abstained, is_neutral,
}
use fund.State.Rows.{Signal, Offered, Db}
use fund.Python.Floats.{Float, float_le, zero_float, whole}
use fund.Base.{
  Bool, List, String, count_where, [], length, str_eq, ◌∷◌, ◌≤◌, if◌then◌else◌, ◌&&◌, ◌≡◌, arith,
  true, ◌+◌, Bool-cases, refl, inl, count_where_le, false, str_eq_iff, subst, inr, not, ℕ, sym, ◌<◌,
  suc, zero, and_left, ◌==◌,
}

-- UNIQUE (run_date, agent, ticker)
abbrev pub is_call : (run_date agent ticker : String) → Signal → Bool
is_call run_date agent ticker s =
    str_eq s.run_date run_date && str_eq s.agent agent && str_eq s.ticker ticker

abbrev pub IsUnique : List Signal → Type 0
IsUnique ss = (run_date agent ticker : String) → count_where (is_call run_date agent ticker) ss ≤ 1

abbrev pub is_rate : Float → Bool
is_rate x = float_le zero_float x && float_le x (whole 1)

and_all : (a b c : Bool) → (a && b && c) ≡ true → (a ≡ true) × (b ≡ true) × (c ≡ true)
and_all true b c h = ground arith
and_all false b c h = cc

module _ {A B : Type 0} (m : A → B → Bool) where
  -- The pairs of a join, counted from its other side.
  join_count-cons :
      (xs : List A) (b : B) (bs : List B)
      → join_count m xs (b ∷ bs) ≡ count_where (λ x. m x b) xs + join_count m xs bs
  join_count-cons [] b bs = omega arith
  join_count-cons (x ∷ xs) b bs = ground (arith, join_count-cons xs b bs)

  join_count-nil : (xs : List A) → join_count m xs [] ≡ 0
  join_count-nil [] = refl
  join_count-nil (x ∷ xs) = omega (arith, join_count-nil xs)

  join_count_le :
      (q : B → Bool) (xs : List A) (bs : List B)
      → ((b : B) → count_where (λ x. m x b) xs ≤ (if q b then 1 else 0))
      → join_count m xs bs ≤ count_where q bs
  join_count_le q xs [] h = omega (arith, join_count-nil xs)
  join_count_le q xs (b ∷ bs) h =
      ground (arith, h b, join_count-cons xs b bs, join_count_le q xs bs h)

module _ (seat : String) (days : List String) where
  -- What a covering pair says: the seat's own call in the window, on the ticker of the day.
  covers_parts :
      (s : Signal) (o : Offered)
      → covers seat days s o ≡ true
      → (s.run_date ≡ o.run_date)
        × (s.ticker ≡ o.ticker)
        × (s.agent ≡ seat)
        × (within days s.run_date ≡ true)
  covers_parts s o h =
      let (said, day, ticker) =
        and_all (spoke seat days s) (str_eq o.run_date s.run_date) (str_eq o.ticker s.ticker) h in
      let (agent, own, inside) =
        and_all (str_eq s.agent seat) (not (str_eq s.charter_version "none"))
          (within days s.run_date) said in
      (
        sym ((str_eq_iff o.run_date s.run_date).0 day),
        sym ((str_eq_iff o.ticker s.ticker).0 ticker),
        (str_eq_iff s.agent seat).0 agent,
        inside,
      )

  covers-day :
      (s : Signal) (o : Offered) → covers seat days s o ≡ true → within days o.run_date ≡ true
  covers-day s o h =
      let (day, ticker, agent, inside) = covers_parts s o h in
      subst (λ x. within days x ≡ true) day inside

  covers-call :
      (s : Signal) (o : Offered)
      → covers seat days s o ≡ true
      → is_call o.run_date seat o.ticker s ≡ true
  covers-call s o h =
      let (day, ticker, agent, inside) = covers_parts s o h in
      rw
        (
          (str_eq_iff s.run_date o.run_date).1 day,
          (str_eq_iff s.agent seat).1 agent,
          (str_eq_iff s.ticker o.ticker).1 ticker,
        )
        refl

  nobody_covers :
      (ss : List Signal) (o : Offered)
      → within days o.run_date ≡ false
      → count_where (λ s. covers seat days s o) ss ≡ 0
  nobody_covers [] o outside = refl
  nobody_covers (s ∷ ss) o outside = elim (Bool-cases (covers seat days s o)) [
    | inl hit ↦ cc (covers-day s o hit)
    | inr miss ↦ rw miss (nobody_covers ss o outside)
  ]

  covered_once :
      (ss : List Signal) (o : Offered)
      → IsUnique ss
      → count_where (λ s. covers seat days s o) ss ≤ (if within days o.run_date then 1 else 0)
  covered_once ss o unique = elim (Bool-cases (within days o.run_date)) [
    | inl inside ↦ rw inside (
        let at_most =
          count_where_le (λ s. covers seat days s o) (is_call o.run_date seat o.ticker) ss
            (λ s. covers-call s o) in
        omega (arith, unique o.run_date seat o.ticker))
    | inr outside ↦ rw outside (omega (arith, nobody_covers ss o outside))
  ]

distinct_le : (p : Signal → Bool) (ss : List Signal) → length (confidences p ss) ≤ count_where p ss
distinct_le p [] = omega arith
distinct_le p (s ∷ ss) = ground (arith, distinct_le p ss)

covered_le :
    (seat : String) (days : List String) (db : Db)
    → IsUnique db.signals
    → n_covered db seat days ≤ n_offered_in db days
covered_le seat days db unique =
    join_count_le (covers seat days) (λ (o : Offered). within days o.run_date) db.signals db.offered
      (λ o. covered_once seat days db.signals o unique)

zero_rate : is_rate zero_float ≡ true
unfolding whole
zero_rate = ground arith

module _ (a : Arith) (sum_of : List Float → Float)
    (div_rate : (part all_of : ℕ)
      → part ≤ all_of
      → 0 < all_of
      → is_rate (a.div (whole part) (whole all_of)) ≡ true) where
  rate-is_rate : (part all_of : ℕ) → part ≤ all_of → is_rate (rate a part all_of) ≡ true
  rate-is_rate part zero le = zero_rate
  rate-is_rate part (suc n) le =
      let some_of : (suc n == 0) ≡ false = ground arith in
      rw some_of (div_rate part (suc n) le (omega arith))

  -- Where a quotient of whole numbers, of the smaller by the larger, lies between 0 and 1, and a seat has
  -- one signal at most on a ticker of a day: over any window the behaviour of any seat has a coverage
  -- and an abstention rate between 0 and 1, as many distinct confidences as signals at most, and at
  -- most as many signals on offered tickers as tickers were offered.
  pub behaviour-bounds :
      (db : Db) (seat : String) (days : List String)
      → IsUnique db.signals
      → let b = behaviour a sum_of db seat days in
        (is_rate b.coverage ≡ true)
        × (is_rate b.abstention_rate ≡ true)
        × (b.n_distinct_conf ≤ b.n_signalled)
        × (n_covered db seat days ≤ n_offered_in db days)
  unfolding behaviour
  behaviour-bounds db seat [] unique =
      (zero_rate, zero_rate, omega arith, covered_le seat [] db unique)
  behaviour-bounds db seat (day ∷ days) unique = (
    rate-is_rate (n_covered db seat (day ∷ days)) (n_offered_in db (day ∷ days))
        (covered_le seat (day ∷ days) db unique),
    rate-is_rate (count_where (abstained seat (day ∷ days)) db.signals)
        (count_where (spoke seat (day ∷ days)) db.signals)
        (count_where_le (abstained seat (day ∷ days)) (spoke seat (day ∷ days)) db.signals
          (λ s. and_left (spoke seat (day ∷ days) s) (is_neutral s.direction))),
    distinct_le (spoke seat (day ∷ days)) db.signals,
    covered_le seat (day ∷ days) db unique,
  )
