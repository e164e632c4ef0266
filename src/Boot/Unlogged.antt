-- ===== src/Boot/Unlogged.antt =====
-- The log of the packets does not change a run of a download.
use nadrvlinux.Prelude.{
  ℕ, zero, suc, Bool, true, false, Option, none, some, List, ◌≡◌, refl, ap, ap₂, ◌∙◌,
}
use nadrvlinux.Download.{
  Packet, Reply, Request, Download, State, requesting, sending, aborting, step, rounds,
  request_step, data_step, abort_step,
}
use nadrvlinux.Download.Progress.{recorded}

module _ {W : Type 0} (transfer : W → Packet → Reply × W) where
  -- The log does not change a run.
  abbrev pub unlogged : Option (Download × (W × List Packet)) → Option (Download × W)
  unlogged none = none
  unlogged (some (d, (w, log))) = some (d, w)

  abbrev Logged : Download × W → Download × (W × List Packet) → Type 0
  Logged x y = (y.0 ≡ x.0) × (y.1.0 ≡ x.1)

  step-Logged :
      (st : State) (q : Request) (d : Download) (w : W) (log : List Packet)
      → Logged (step transfer st q d w) (step (recorded transfer) st q d (w, log))
  unfolding step request_step data_step abort_step recorded
  step-Logged requesting q d w log = (refl, refl)
  step-Logged sending q d w log = (refl, refl)
  step-Logged aborting q d w log = (refl, refl)

  pub rounds-unlogged :
      (fuel : ℕ) (q : Request) (d : Download) (w : W) (log : List Packet)
      → unlogged (rounds (recorded transfer) fuel q d (w, log)) ≡ rounds transfer fuel q d w
  unfolding rounds
  rounds-unlogged zero q d w log = refl
  rounds-unlogged (suc fuel) q d w log =
      go (step transfer d.state q d w) (step (recorded transfer) d.state q d (w, log))
        (step-Logged d.state q d w log) (λ d' w' log'. rounds-unlogged fuel q d' w' log')
    where
      after : Download × W → Option (Download × W)
      after x = elim x.0.stop_download as (λ b. Option (Download × W)) [
        | true ↦ some x
        | false ↦ rounds transfer fuel q x.0 x.1
      ]

      after_logged : Download × (W × List Packet) → Option (Download × (W × List Packet))
      after_logged y = elim y.0.stop_download as (λ b. Option (Download × (W × List Packet))) [
        | true ↦ some y
        | false ↦ rounds (recorded transfer) fuel q y.0 y.1
      ]

      go :
          (x : Download × W) (y : Download × (W × List Packet))
          → Logged x y
          → ((d' : Download) (w' : W) (log' : List Packet)
              → unlogged (rounds (recorded transfer) fuel q d' (w', log'))
                ≡ rounds transfer fuel q d' w')
          → unlogged (after_logged y) ≡ after x
      go (d1, w1) (d2, (w2, log2)) (e, f) rest =
          ap (λ (y : Download × (W × List Packet)). unlogged (after_logged y))
            (ap₂ (λ (a : Download) (b : W). (a, (b, log2))) e f)
          ∙ decided d1.stop_download
        where
          decided :
              (b : Bool)
              → unlogged (elim b as (λ b. Option (Download × (W × List Packet))) [
                | true ↦ some (d1, (w1, log2))
                | false ↦ rounds (recorded transfer) fuel q d1 (w1, log2)
              ])
                ≡ elim b as (λ b. Option (Download × W)) [
                  | true ↦ some (d1, w1)
                  | false ↦ rounds transfer fuel q d1 w1
                ]
          decided true = refl
          decided false = rest d1 w1 log2
