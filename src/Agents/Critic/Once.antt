-- ===== src/Agents/Critic/Once.antt =====
-- The table of verdicts, seen from outside: a register that is written at most once for each key.
use fund.State.Specs.{has_verdict, has_spec}
use fund.Python.Values.{Value, Dict, is_text, get}
use fund.State.Rows.{SpecCall, SpecVerdict, Db, Time, Spec}
use fund.Python.Actions.{Result, ok}
use fund.Agents.Critic.{is_attributed, write_verdict, handle_submit_spec_critique, valid_critique}
use fund.Agents.Seats.{can, seat_caps}
use fund.Base.{
  none, some, true, false, inl, inr, refl, List, Option, String, Bool, if◌then◌else◌, ◌∷◌, ◌≡◌,
  Bool-cases, or_left, str_eq, ◌++◌, [], arith, or_right, ◌&&◌, str_eq_iff, str_eq_refl,
}
use fund.Agents.Submit.{accepted, Pydantic, Reply}

-- The abstract register, and its one operation.
abbrev pub Register : Type 0
Register = String → Option SpecCall

abbrev put_at : String → SpecCall → Register → Option SpecCall → Bool × Register
put_at k call m none = (true, λ j. if str_eq k j then some call else m j)
put_at k call m (some old) = (false, m)

abbrev pub put : String → SpecCall → Register → Bool × Register
put k call m = put_at k call m (m k)

-- A call that asks for nothing leaves the register alone.
abbrev pub request : Option (String × SpecCall) → Register → Bool × Register
request none m = (false, m)
request (some (k, call)) m = put k call m

-- What the table says of a spec.
abbrev pub verdict_in : List SpecVerdict → Register
verdict_in [] k = none
verdict_in (v ∷ vs) k =
    let rest = verdict_in vs k in if str_eq v.spec_id k then some v.call else rest

abbrev for_spec : String → Option SpecCall → Option (String × SpecCall)
for_spec id none = none
for_spec id (some call) = some (id, call)

abbrev bound_to : String → Bool → Option SpecCall → Option (String × SpecCall)
bound_to id allowed call = if allowed then for_spec id call else none

-- What a tool call asks of the register: the verdict of a well-formed payload, if the critic sends it
-- in a turn that is bound to the registered spec that it names, under a stated charter and model.
abbrev pub asked :
    Pydantic
    → (Value → Option (List Value))
    → (charter model seat : String) → Dict
    → Option String
    → List Spec
    → Option (String × SpecCall)
asked p list_of charter model seat args none specs = none
asked p list_of charter model seat args (some id) specs =
    bound_to id
      (str_eq seat "critic"
        && is_text (get args "spec_id") id
        && (is_attributed charter && is_attributed model)
        && has_spec id specs)
      (valid_critique p list_of args)

abbrev pub is_accepted : Result Reply → Bool
is_accepted (ok accepted) = true
is_accepted r = false

granted_critic :
    (seat : String) → can seat "submit_spec_critique" ≡ true → str_eq seat "critic" ≡ true
unfolding can seat_caps
granted_critic seat h = ground arith

critic_granted : (seat : String) → seat ≡ "critic" → can seat "submit_spec_critique" ≡ true
unfolding can seat_caps
critic_granted seat e = rw e refl

critic_only : (seat : String) → can seat "submit_spec_critique" ≡ str_eq seat "critic"
critic_only seat = elim (Bool-cases (str_eq seat "critic")) [
  | inl critic ↦ rw critic (critic_granted seat ((str_eq_iff seat "critic").0 critic))
  | inr other_seat ↦ elim (Bool-cases (can seat "submit_spec_critique")) [
    | inl may ↦ cc (granted_critic seat may, other_seat)
    | inr not_granted ↦ rw (other_seat, not_granted) refl
  ]
]

verdict-missing :
    (k : String) (vs : List SpecVerdict) → has_verdict k vs ≡ false → verdict_in vs k ≡ none
verdict-missing k [] h = refl
verdict-missing k (v ∷ vs) h =
    rw (or_left (str_eq v.spec_id k) (has_verdict k vs) h)
      (verdict-missing k vs (or_right (str_eq v.spec_id k) _ h))

verdict-there :
    (k : String) (vs : List SpecVerdict)
    → has_verdict k vs ≡ true
    → (c : SpecCall) × (verdict_in vs k ≡ some c)
verdict-there k [] h = cc
verdict-there k (v ∷ vs) h = elim (Bool-cases (str_eq v.spec_id k)) [
  | inl hit ↦ (v.call, rw hit refl)
  | inr miss ↦ rw miss (verdict-there k vs (rw miss at h))
]

verdict-append :
    (k : String) (vs : List SpecVerdict) (new : SpecVerdict)
    → has_verdict new.spec_id vs ≡ false
    → verdict_in (vs ++ new ∷ []) k
      ≡ (if str_eq new.spec_id k then some new.call else verdict_in vs k)
verdict-append k [] new h = refl
verdict-append k (v ∷ vs) new h =
    let tail = verdict-append k vs new (or_right (str_eq v.spec_id new.spec_id) _ h) in
    elim (Bool-cases (str_eq v.spec_id k)) [
      | inr miss ↦ rw (miss, tail) refl
      | inl hit ↦ elim (Bool-cases (str_eq new.spec_id k)) [
        | inr other_spec ↦ rw (hit, other_spec) refl
        | inl same ↦
            let va : v.spec_id ≡ k = (str_eq_iff v.spec_id k).0 hit in
            let na : new.spec_id ≡ k = (str_eq_iff new.spec_id k).0 same in
            let eq : str_eq v.spec_id new.spec_id ≡ true = rw (va, na) (str_eq_refl k) in
            cc (or_left (str_eq v.spec_id new.spec_id) (has_verdict new.spec_id vs) h, eq)
      ]
    ]

-- The reply and the table after a call are those of the register after the request.
abbrev pub Refines : Option (String × SpecCall) → Db → Result Reply × Db → Type 0
Refines wish db (reply, db') =
    let (written, m) = request wish (verdict_in db.spec_verdicts) in
    (is_accepted reply ≡ written) × ((k : String) → verdict_in db'.spec_verdicts k ≡ m k)

write-Refines :
    (charter model seat id : String) (o : Option SpecCall) (now : Time) (db : Db)
    → Refines
        (bound_to id ((is_attributed charter && is_attributed model) && has_spec id db.specs) o)
        db
        (write_verdict charter model seat id o now db)
unfolding write_verdict
write-Refines charter model seat id none now db =
    elim (Bool-cases ((is_attributed charter && is_attributed model) && has_spec id db.specs)) [
      | inl may ↦ rw may (refl, λ k. refl)
      | inr may_not ↦ rw may_not (refl, λ k. refl)
    ]
write-Refines charter model seat id (some call) now db = elim (Bool-cases (has_spec id db.specs)) [
  | inr unknown ↦ elim (Bool-cases (is_attributed charter && is_attributed model)) [
    | inl stated ↦ rw (stated, unknown) (refl, λ k. refl)
    | inr unstated ↦ rw (unstated, unknown) (refl, λ k. refl)
  ]
  | inl there ↦ elim (Bool-cases (has_verdict id db.spec_verdicts)) [
    | inl judged ↦
        let (c, e) = verdict-there id db.spec_verdicts judged in
        elim (Bool-cases (is_attributed charter && is_attributed model)) [
          | inl stated ↦ rw (stated, there, judged, e) (refl, λ k. refl)
          | inr unstated ↦ rw (unstated, there, judged) (refl, λ k. refl)
        ]
    | inr fresh ↦ elim (Bool-cases (is_attributed charter && is_attributed model)) [
      | inr unstated ↦ rw (unstated, there, fresh) (refl, λ k. refl)
      | inl stated ↦
          rw (stated, there, fresh, verdict-missing id db.spec_verdicts fresh)
            (refl, λ k. verdict-append k db.spec_verdicts _ fresh)
    ]
  ]
]

module _ (p : Pydantic) (list_of : Value → Option (List Value)) (charter model seat : String)
    (args : Dict) (now : Time) (db : Db) where
  -- Any call of submit_spec_critique, by any seat, in a turn bound to any spec or to none, does to the
  -- table of verdicts what the request of that call does to a register that is written at most once
  -- for each key: it is accepted exactly if the request is granted, and every spec reads back as in the
  -- register. A call under no stated charter or model asks for nothing.
  pub handle_submit_spec_critique-Refines :
      (expected : Option String)
      → Refines
          (asked p list_of charter model seat args expected db.specs)
          db
          (handle_submit_spec_critique p list_of charter model seat args expected now db)
  unfolding handle_submit_spec_critique
  handle_submit_spec_critique-Refines none = elim (Bool-cases (can seat "submit_spec_critique")) [
    | inl may ↦ rw may (refl, λ k. refl)
    | inr not_granted ↦ rw not_granted (refl, λ k. refl)
  ]
  handle_submit_spec_critique-Refines (some id) = elim (Bool-cases (str_eq seat "critic")) [
    | inr other_seat ↦ rw (critic_only seat, other_seat) (refl, λ k. refl)
    | inl critic ↦ elim (Bool-cases (is_text (get args "spec_id") id)) [
      | inr other_spec ↦ rw (critic_only seat, critic, other_spec) (refl, λ k. refl)
      | inl named ↦
          rw (critic_only seat, critic, named)
            (write-Refines charter model seat id (valid_critique p list_of args) now db)
    ]
  ]
