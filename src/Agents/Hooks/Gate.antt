-- ===== src/Agents/Hooks/Gate.antt =====
-- What the hook lets through.
use fund.Slack.Outbox.{append_alert}
use fund.State.Rows.{Time, Db, Ticket}
use fund.Python.Values.{Conversions, Dict}
use fund.Base.{
  none, some, true, false, inl, inr, refl, Bool, String, Option, ◌≡◌, Bool-cases, ◌⊎◌,
  if◌then◌else◌,
}
use fund.Python.Actions.{ok, err, Result}
use fund.Gate.Tickets.Orders.{Ruling, allow, deny, validate_order}
use fund.Gate.Tickets.Orders.Sound.{Names, IsAuthorized, validate_order_sound}
use fund.Agents.Hooks.{
  allowed, gated, forbidden, proceed, denied, place_prefix, broker_verb_policy, broker_prefix,
  is_read, HookAnswer, deny_call, order_gate, Policy, by_policy, rule_on,
}
use text.Mathlib.Text.{starts_with}

-- The call is of no broker tool, or reads, or places an order that a ticket in the store authorizes.
abbrev pub MayProceed : Conversions → (tool : String) → Option Dict → Time → Db → Type 0
MayProceed conv tool input now db =
    (starts_with tool broker_prefix ≡ false)
    ⊎ (is_read tool ≡ true)
    ⊎ ((starts_with tool place_prefix ≡ true)
        × (d : Dict) × (input ≡ some d)
        × (t : Ticket) × Names conv d db t
        × IsAuthorized conv d now t)

-- A call that proceeds changes nothing; a denial is one alert, if the store can be opened.
abbrev pub Hooked :
    Conversions
    → (opens : Bool) → (tool : String) → Option Dict
    → Time
    → Db
    → HookAnswer × Db
    → Type 0
Hooked conv opens tool input now db (proceed, db') = MayProceed conv tool input now db × (db' ≡ db)
Hooked conv opens tool input now db (denied why, db') =
    db' ≡ (if opens then append_alert "order_gate_denied" none now db else db)

policy-allowed :
    (tool : String)
    → broker_verb_policy tool ≡ allowed
    → (starts_with tool broker_prefix ≡ false) ⊎ (is_read tool ≡ true)
unfolding broker_verb_policy
policy-allowed tool h = elim (Bool-cases (starts_with tool broker_prefix)) [
  | inr foreign ↦ inl foreign
  | inl broker ↦ elim (Bool-cases (starts_with tool place_prefix)) [
    | inl places ↦ cc (rw (broker, places) at h)
    | inr other ↦ elim (Bool-cases (is_read tool)) [
      | inl reads ↦ inr reads
      | inr writes ↦ cc (rw (broker, other, writes) at h)
    ]
  ]
]

policy-gated :
    (tool : String) → broker_verb_policy tool ≡ gated → starts_with tool place_prefix ≡ true
unfolding broker_verb_policy
policy-gated tool h = elim (Bool-cases (starts_with tool broker_prefix)) [
  | inr foreign ↦ cc (rw foreign at h)
  | inl broker ↦ elim (Bool-cases (starts_with tool place_prefix)) [
    | inl places ↦ places
    | inr other ↦ elim (Bool-cases (is_read tool)) [
      | inl reads ↦ cc (rw (broker, other, reads) at h)
      | inr writes ↦ cc (rw (broker, other, writes) at h)
    ]
  ]
]

module _ (conv : Conversions) (opens : Bool) (tool : String) (input : Option Dict) (now : Time)
    (db : Db) where
  authorizing :
      (o : Option Dict)
      → validate_order conv o now db ≡ ok allow
      → (d : Dict) × (o ≡ some d) × (t : Ticket) × Names conv d db t × IsAuthorized conv d now t
  unfolding validate_order
  authorizing none h = cc
  authorizing (some d) h =
      let (t, names, is_authorized) = validate_order_sound conv d now db h in
      (d, refl, t, names, is_authorized)

  ruled-Hooked :
      (r : Result Ruling)
      → validate_order conv input now db ≡ r
      → starts_with tool place_prefix ≡ true
      → Hooked conv opens tool input now db (rule_on opens now r db)
  unfolding deny_call
  ruled-Hooked (ok allow) e places =
      let (d, is_d, t, names, is_authorized) = authorizing input e in
      (inr (inr (places, d, is_d, t, names, is_authorized)), refl)
  ruled-Hooked (ok (deny why)) e places = refl
  ruled-Hooked (err x) e places = refl

  policy-Hooked :
      (policy : Policy)
      → broker_verb_policy tool ≡ policy
      → Hooked conv opens tool input now db (by_policy conv opens policy input now db)
  unfolding deny_call
  policy-Hooked allowed e = elim (policy-allowed tool e) [
    | inl foreign ↦ (inl foreign, refl)
    | inr reads ↦ (inr (inl reads), refl)
  ]
  policy-Hooked forbidden e = refl
  policy-Hooked gated e = elim (Bool-cases opens) [
    | inr shut ↦ rw shut refl
    | inl open_store ↦
        let checked = ruled-Hooked (validate_order conv input now db) refl (policy-gated tool e) in
        rw open_store (rw open_store at checked)
  ]

  -- Whatever tool the trader calls, with whatever input: the call proceeds only if the tool is not the
  -- broker's, or only reads, or places an order that a ticket in the store authorizes, and then nothing
  -- is written. Every other call, and every exception of the validation, is denied, with one alert if
  -- the store can be opened.
  pub order_gate-Hooked :
      Hooked conv opens tool input now db (order_gate conv opens tool input now db)
  unfolding order_gate
  order_gate-Hooked = policy-Hooked (broker_verb_policy tool) refl
