-- ===== src/Collector/Handlers/Recorders.antt =====
-- `Record` of the recorders of collector.go, on the vectors of client_golang.
use smokeping_prober.Prelude.{
  List, [], ◌∷◌, inl, inr, none, some, ◌>>=◌, Result, err, ◌≡◌, refl, arith, Text, ok, length,
  Option-cases,
}
use smokeping_prober.Remote.Targets.{Target}
use smokeping_prober.Remote.Huawei.Parse.{PingResult, Reply}
use smokeping_prober.Collector.{remote_label_values, last_reply}
use smokeping_prober.Collector.Handlers.{Panic, observes, sets, Prometheus, Documented, World}
use smokeping_prober.Collector.Handlers.Consistent.{
  Consistent, Ready, fits, length-remote_label_values,
}

module _ (prom : Prometheus) where
  open prom use {Vec, with_label_values}

  -- A `remoteRecorder`: the label names and the vectors that were current when it was made.
  pub record Recorder : Type 0 where
    pub label_names : List Text
    pub hist : Vec
    pub ttl : Vec

  abbrev pub new_recorder : List Text → World prom → Recorder
  new_recorder names w = record { label_names = names; hist = w.seconds; ttl = w.ttl }

  observe_replies : List Text → List Reply → Vec → Result Panic Vec
  observe_replies vals [] hist = ok hist
  observe_replies vals (rep ∷ reps) hist = elim (with_label_values hist vals (observes rep.rtt)) [
    | err e ↦ err e
    | ok hist' ↦ observe_replies vals reps hist'
  ]

  set_last : List Text → List Reply → Vec → Result Panic Vec
  unfolding last_reply
  set_last vals reps ttl = elim (last_reply reps) [
    | none ↦ ok ttl
    | some rep ↦ with_label_values ttl vals (sets rep.ttl)
  ]

  -- `Record`
  unfoldable pub record_replies : Target → PingResult → Recorder → Result Panic Recorder
  unfolding observe_replies set_last
  record_replies t res r = do
    let vals = remote_label_values r.label_names t
    hist ← observe_replies vals res.replies r.hist
    ttl ← set_last vals res.replies r.ttl
    ok (record r { hist = hist; ttl = ttl })

  -- The results of a scheduler, in the order of its calls of `Record`.
  unfoldable pub record_series : List (Target × PingResult) → Recorder → Result Panic Recorder
  unfolding record_replies
  record_series [] r = ok r
  record_series ((t, res) ∷ results) r = elim (record_replies t res r) [
    | err e ↦ err e
    | ok r' ↦ record_series results r'
  ]

module _ (prom : Prometheus) (docs : Documented prom) where
  observe_replies-total :
      (names vals : List Text) (reps : List Reply) (hist : prom.Vec)
      → length vals ≡ length names
      → Ready prom docs names hist
      → (hist' : prom.Vec) × (observe_replies prom vals reps hist ≡ ok hist')
        × Ready prom docs names hist'
  unfolding observe_replies
  observe_replies-total names vals [] hist as_many wide = (hist, refl, wide)
  observe_replies-total names vals (rep ∷ reps) hist as_many wide =
      let (h, e, ready) = fits prom docs names vals hist (observes rep.rtt) as_many wide in
      let (h', e', wide') = observe_replies-total names vals reps h as_many ready in
      (h', rw (e, observe_replies) e', wide')

  set_last-total :
      (names vals : List Text) (reps : List Reply) (ttl : prom.Vec)
      → length vals ≡ length names
      → Ready prom docs names ttl
      → (ttl' : prom.Vec) × (set_last prom vals reps ttl ≡ ok ttl') × Ready prom docs names ttl'
  unfolding set_last
  set_last-total names vals reps ttl as_many wide = elim (Option-cases (last_reply reps)) [
    | inl e ↦ (ttl, rw (e, set_last) refl, wide)
    | inr (rep, e) ↦
        let (t, q, ready) = fits prom docs names vals ttl (sets rep.ttl) as_many wide in
        (t, rw (e, set_last) q, ready)
  ]

  -- The vectors of a recorder are ready for its label names.
  pub record Current (r : Recorder prom) : Type 0 where
    pub hist_fits : Ready prom docs r.label_names r.hist
    pub ttl_fits : Ready prom docs r.label_names r.ttl

  record_replies-Current :
      (r : Recorder prom) (t : Target) (res : PingResult)
      → Current r
      → (r' : Recorder prom) × (record_replies prom t res r ≡ ok r') × Current r'
  unfolding record_replies
  record_replies-Current r t res c =
      let as_many = length-remote_label_values r.label_names t in
      let (h, eh, ch) =
        observe_replies-total r.label_names _ res.replies r.hist as_many c.hist_fits in
      let (g, eg, cg) = set_last-total r.label_names _ res.replies r.ttl as_many c.ttl_fits in
      (record r { hist = h; ttl = g }, rw (eh, eg, record_replies) refl, ground arith)

  record_series-total :
      (results : List (Target × PingResult)) (r : Recorder prom)
      → Current r
      → (r' : Recorder prom) × (record_series prom results r ≡ ok r')
  unfolding record_series
  record_series-total [] r c = (r, refl)
  record_series-total ((t, res) ∷ results) r c =
      let (r', e, c') = record_replies-Current r t res c in
      let (r'', e') = record_series-total results r' c' in (r'', rw (e, record_series) e')

  -- A recorder that is made for vectors that are ready for its label names records any series of
  -- results without a panic.
  pub recorder-safe :
      (names : List Text) (w : World prom) (results : List (Target × PingResult))
      → Consistent prom docs names w
      → (r : Recorder prom) × (record_series prom results (new_recorder prom names w) ≡ ok r)
  recorder-safe names w results c =
      record_series-total results (new_recorder prom names w)
        record { hist_fits = c.seconds_fit; ttl_fits = c.ttl_fits }
