-- ===== src/Collector/Handlers.antt =====
-- The metric vectors of collector.go: `initMetrics` makes them, `updateProbes` their series, and the
-- handlers of a pinger write to them. Package client_golang is a parameter.
pub mod Consistent
pub mod Recorders
pub mod Renewed
pub mod Created
use smokeping_prober.Prelude.{
  ℕ, suc, true, ◌≡◌, ◌≢◌, All, Bool, List, [], ◌∷◌, Option, none, some, Text, codes, Result, ok,
  err, ◌>>=◌, length, if◌then◌else◌,
}
use smokeping_prober.Config.{Duration}
use smokeping_prober.Prober.{Probe}
use smokeping_prober.Remote.Targets.{Target}
use smokeping_prober.Remote.Huawei.Parse.{PingResult, Reply}
use smokeping_prober.Collector.{build_label_values, remote_label_values, last_reply}

-- What is done to the metric that `WithLabelValues` gives; `created` is nothing more.
pub data Update : Type 0 where
  created increments : Update
  observes : Duration → Update
  sets : ℕ → Update

-- `label_names` is that of a registration with other label names than the name has had before.
pub data Panic : Type 0 where
  label_count label_names bad_histogram bad_name : Panic

-- Package client_golang: the constructors of the vectors, with that of a histogram apart, whose
-- factor for native buckets is the same for the life of the program; the default
-- registry; `Reset`; and `WithLabelValues` with a method of the metric that it gives.
pub record Prometheus : Type 1 where
  pub Vec : Type 0
  pub Bucket : Type 0
  pub Registry : Type 0
  pub new_vec : List Text → Vec
  pub new_histogram : List Text → List Bucket → Vec
  -- `MustRegister` and `Unregister` for a name and its label names.
  pub must_register : Text → List Text → Registry → Result Panic Registry
  pub unregister : Text → List Text → Registry → Registry
  pub reset : Vec → Vec
  pub with_label_values : Vec → List Text → Update → Result Panic Vec
  -- The number of label names of a vector.
  pub width : Vec → ℕ
  -- Whether the buckets are in increasing order.
  pub increasing : List Bucket → Bool

-- What its documentation says of the vectors: their label names never change; `WithLabelValues`
-- panics if the values are not as many as the names; and else it does not, but for a histogram
-- with a label name "le" or with buckets that are not in increasing order.
pub record Documented (prom : Prometheus) : Type 1 where
  pub Works : prom.Vec → Type 0
  pub works-new_vec : (names : List Text) → Works (prom.new_vec names)
  pub works-new_histogram :
      (names : List Text) (buckets : List prom.Bucket)
      → All (λ n. n ≢ codes "le") names
      → prom.increasing buckets ≡ true
      → Works (prom.new_histogram names buckets)
  pub works-reset : (v : prom.Vec) → Works v → Works (prom.reset v)
  pub works-with :
      (v v' : prom.Vec) (vals : List Text) (u : Update)
      → prom.with_label_values v vals u ≡ ok v'
      → Works v
      → Works v'
  pub width-new_vec : (names : List Text) → prom.width (prom.new_vec names) ≡ length names
  pub width-new_histogram :
      (names : List Text) (buckets : List prom.Bucket)
      → prom.width (prom.new_histogram names buckets) ≡ length names
  pub width-reset : (v : prom.Vec) → prom.width (prom.reset v) ≡ prom.width v
  pub width-with :
      (v v' : prom.Vec) (vals : List Text) (u : Update)
      → prom.with_label_values v vals u ≡ ok v'
      → prom.width v' ≡ prom.width v
  pub accepts :
      (v : prom.Vec) (vals : List Text) (u : Update)
      → Works v
      → length vals ≡ prom.width v
      → (v' : prom.Vec) × (prom.with_label_values v vals u ≡ ok v')
  pub panics :
      (v : prom.Vec) (vals : List Text) (u : Update)
      → length vals ≢ prom.width v
      → (p : Panic) × (prom.with_label_values v vals u ≡ err p)

-- What a pinger reports to its handlers, with the address of the packet.
pub data Report : Type 0 where
  received : Text → Duration → ℕ → Report
  duplicate : Text → Report
  finished : Report
  -- Whether the error is a `net.OpError` that timed out.
  receive_failed : Bool → Report
  send_failed : Text → Report

module _ (prom : Prometheus) where
  open prom use {
    Vec, Bucket, Registry, new_vec, new_histogram, must_register, unregister, reset,
    with_label_values,
  }

  -- The global vectors, the histogram, and the registry.
  pub record World : Type 0 where
    pub ttl : Vec
    pub duplicates : Vec
    pub receive_errors : ℕ
    pub send_errors : Vec
    pub seconds : Vec
    pub registry : Registry

  -- The calls of `promauto` in `initMetrics`, in order.
  register_globals : List Text → Registry → Result Panic Registry
  register_globals names reg = must_register (codes "smokeping_response_ttl") names reg >>= λ reg1.
      must_register (codes "smokeping_response_duplicates_total") names reg1 >>= λ reg2.
      must_register (codes "smokeping_receive_errors_total") [] reg2 >>= λ reg3.
      must_register (codes "smokeping_send_errors_total") names reg3

  -- Its calls of `Unregister` when there are vectors for these label names already.
  abbrev pub unregister_globals : List Text → Registry → Registry
  unregister_globals names reg = unregister (codes "smokeping_send_errors_total") names (
      unregister (codes "smokeping_receive_errors_total") [] (
        unregister (codes "smokeping_response_duplicates_total") names
          (unregister (codes "smokeping_response_ttl") names reg)))

  -- `initMetrics`, after what it unregisters. The histogram is not registered.
  unfoldable pub init_metrics : List Text → List Bucket → Registry → Result Panic World
  unfolding register_globals
  init_metrics names buckets reg = elim (register_globals names reg) [
    | err e ↦ err e
    | ok reg' ↦ ok (record {
      ttl = new_vec names;
      duplicates = new_vec names;
      receive_errors = 0;
      send_errors = new_vec names;
      seconds = new_histogram names buckets;
      registry = reg';
    })
  ]

  -- `initMetrics` and the registration of the histogram, as `main` makes the two calls.
  unfoldable pub make_vectors : List Text → List Bucket → Registry → Result Panic World
  unfolding init_metrics
  make_vectors names buckets reg = elim (init_metrics names buckets reg) [
    | err e ↦ err e
    | ok w ↦
        must_register (codes "smokeping_response_duration_seconds") names w.registry >>= λ reg'.
        ok (record w { registry = reg' })
  ]

  -- The same in a reload, where the old vectors have these label names.
  unfoldable pub renew_vectors : List Text → List Text → List Bucket → World → Result Panic World
  unfolding make_vectors
  renew_vectors old names buckets w = make_vectors names buckets (
      unregister_globals old
        (unregister (codes "smokeping_response_duration_seconds") old w.registry))

  -- The handlers that `updateProbes` sets, for a collector with these label names.
  unfoldable pub handle : List Text → Probe → Report → World → Result Panic World
  handle names pr (received ip rtt packet_ttl) w = do
    let vals = build_label_values names pr ip
    seconds ← with_label_values w.seconds vals (observes rtt)
    ttl ← with_label_values w.ttl vals (sets packet_ttl)
    ok (record w { seconds = seconds; ttl = ttl })
  handle names pr (duplicate ip) w = do
    duplicates ← with_label_values w.duplicates (build_label_values names pr ip) increments
    ok (record w { duplicates = duplicates })
  handle names pr finished w = ok w
  handle names pr (receive_failed timeout) w =
      ok (if timeout then w else record w { receive_errors = suc w.receive_errors })
  handle names pr (send_failed ip) w = do
    send_errors ← with_label_values w.send_errors (build_label_values names pr ip) increments
    ok (record w { send_errors = send_errors })

  -- The reports of the pingers of a collector, in the order in which they come.
  unfoldable pub handle_all : List Text → List (Probe × Report) → World → Result Panic World
  unfolding handle
  handle_all names [] w = ok w
  handle_all names ((pr, report) ∷ reports) w = elim (handle names pr report w) [
    | err e ↦ err e
    | ok w' ↦ handle_all names reports w'
  ]

  -- The calls of `Reset` in `updateProbes`.
  abbrev pub reset_all : World → World
  reset_all w = record w {
    duplicates = reset w.duplicates;
    seconds = reset w.seconds;
    ttl = reset w.ttl;
    send_errors = reset w.send_errors;
  }

  -- The two loops of `updateProbes`, without the handlers.
  create_probes : List Text → List Probe → World → Result Panic World
  create_probes names [] w = ok w
  create_probes names (pr ∷ prs) w =
      elim (do
        let vals = build_label_values names pr []
        duplicates ← with_label_values w.duplicates vals created
        seconds ← with_label_values w.seconds vals created
        ttl ← with_label_values w.ttl vals created
        send_errors ← with_label_values w.send_errors vals created
        ok (record w {
          duplicates = duplicates;
          seconds = seconds;
          ttl = ttl;
          send_errors = send_errors;
        })) [ err e ↦ err e | ok w' ↦ create_probes names prs w' ]

  create_targets : List Text → List Target → World → Result Panic World
  create_targets names [] w = ok w
  create_targets names (t ∷ ts) w =
      elim (do
        let vals = remote_label_values names t
        seconds ← with_label_values w.seconds vals created
        ttl ← with_label_values w.ttl vals created
        ok (record w { seconds = seconds; ttl = ttl })) [
          | err e ↦ err e
          | ok w' ↦ create_targets names ts w'
        ]

  -- `updateProbes`
  unfoldable pub update_probes : List Text → List Probe → List Target → World → Result Panic World
  unfolding create_probes create_targets
  update_probes names probes targets w = do
    w' ← create_probes names probes (reset_all w)
    create_targets names targets w'
