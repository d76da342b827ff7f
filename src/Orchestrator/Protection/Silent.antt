-- ===== src/Orchestrator/Protection/Silent.antt =====
-- A check of the account that finds nothing has seen every position covered, or stopless on purpose.
use fund.Orchestrator.Protection.Cover.{unknown}
use fund.Orchestrator.Protection.Cover.{Promise, qty_of, covering_qty, promised, promised_stop}
use fund.Python.Actions.{Result, ok, err}
use fund.Orchestrator.Protection.Checks.{
  evaluate, judge, Problem, by_cover, gather, fields_of, closing_of, symbol_of, by_promise,
}
use fund.State.Rows.{Db}
use fund.Python.Values.{Conversions, Dict, get}
use fund.Base.{
  [], none, some, ℕ, inl, inr, Bool-cases, refl, List, Option, String, ◌≡◌, All, ◌≤◌, ◌∷◌, ◌⊎◌, sym,
  leb, arith,
}

module _ (conv : Conversions) (db : Db) (orders : List (Option Dict)) where
  -- The live stops cover the shares held, or the last buy deliberately carried no stop.
  abbrev pub IsSafe : Option Dict → Type 0
  IsSafe p =
      (held : ℕ) × (closing : String) × (qty_of conv (get (fields_of conv p) "qty")
        ≡ ok (some held))
      × (closing_of conv (get (fields_of conv p) "side") ≡ some closing)
      × (covered : ℕ) × (covering_qty conv orders (symbol_of (get (fields_of conv p) "symbol"))
            closing
          ≡ ok (some covered))
      × ((held ≤ covered)
          ⊎ (promised_stop db (symbol_of (get (fields_of conv p) "symbol")) ≡ promised none))

  by_cover-silent :
      (held : ℕ) (r : Result (Option ℕ)) (promise : Promise)
      → by_cover held r promise ≡ ok none
      → (covered : ℕ) × (r ≡ ok (some covered)) × ((held ≤ covered) ⊎ (promise ≡ promised none))
  by_cover-silent held (err e) promise h = cc
  by_cover-silent held (ok none) promise h = cc
  by_cover-silent held (ok (some covered)) promise h = elim (Bool-cases (leb held covered)) [
    | inl enough ↦ (covered, refl, inl (ground arith))
    | inr short ↦ (covered, refl, inr (stopless promise covered (rw short at h)))
  ]
    where
      stopless :
          (promise : Promise) (covered : ℕ)
          → ok (by_promise promise covered) ≡ ok none
          → promise ≡ promised none
      stopless unknown covered h = cc
      stopless (promised none) covered h = refl
      stopless (promised (some stop)) covered h = cc

  judge-silent :
      (p : Option Dict) (q : Result (Option ℕ)) (c : Option String)
      → q ≡ qty_of conv (get (fields_of conv p) "qty")
      → c ≡ closing_of conv (get (fields_of conv p) "side")
      → judge conv db orders (symbol_of (get (fields_of conv p) "symbol")) q c ≡ ok none
      → IsSafe p
  unfolding judge
  judge-silent p (err e) c hq hc h = cc
  judge-silent p (ok none) c hq hc h = cc
  judge-silent p (ok (some held)) none hq hc h = cc
  judge-silent p (ok (some held)) (some closing) hq hc h =
      let r = by_cover-silent held _ _ h in (held, closing, sym hq, sym hc, r.0, r.1, r.2)

  gather-silent :
      (symbol : String) (r : Result (Option Problem)) (rest : Result (List (String × Problem)))
      → gather conv symbol r rest ≡ ok []
      → (r ≡ ok none) × (rest ≡ ok [])
  gather-silent symbol (err e) rest h = cc
  gather-silent symbol (ok none) rest h = (refl, h)
  gather-silent symbol (ok (some problem)) (err e) h = cc
  gather-silent symbol (ok (some problem)) (ok more) h = cc

  -- An evaluation of a snapshot that reports no problem has read every position: its shares and its
  -- side were readable, so were the live orders of its symbol, and these cover all its shares unless
  -- the fund's last filled buy of the symbol carried no stop.
  pub evaluate_silent :
      (positions : List (Option Dict))
      → evaluate conv db positions orders ≡ ok []
      → All IsSafe positions
  unfolding evaluate
  evaluate_silent [] h = tt
  evaluate_silent (p ∷ ps) h =
      let g = gather-silent _ _ _ h in (judge-silent p _ _ refl refl g.0, evaluate_silent ps g.1)
