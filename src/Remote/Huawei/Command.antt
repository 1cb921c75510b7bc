-- ===== src/Remote/Huawei/Command.antt =====
-- What the router's command line reads in the command of a job.
use smokeping_prober.Prelude.{
  ℕ, suc, ℤ, pos, negsuc, Bool, true, false, List, [], ◌∷◌, ◌++◌, ◌≡◌, refl, arith, Text, codes,
  contains_text, ◌≢◌, sym, ap, ◌∙◌, All, All-map, All-append, is_empty, if◌then◌else◌, show_ℕ,
  show_ℤ, show_ℕ-IsDigit, show_ℕ-ne-nil, is_space, IsToken, fields, join_tokens, fields-join_tokens,
  append_assoc,
}
use smokeping_prober.Prelude.Strings.Occurs.{contains_text-end}
use smokeping_prober.Remote.Huawei.{Job, milliseconds, build_command}

digits-IsToken : (n : ℕ) → IsToken (show_ℕ n)
digits-IsToken n = (show_ℕ-ne-nil n, All-map (show_ℕ n) (λ c d. ground arith) (show_ℕ-IsDigit n))

show_ℤ-IsToken : (i : ℤ) → IsToken (show_ℤ i)
unfolding show_ℤ
show_ℤ-IsToken (pos n) = digits-IsToken n
show_ℤ-IsToken (negsuc n) = (ground arith, (refl, (digits-IsToken (suc n)).1))

-- The options of a job, as the router's manual orders them, and the destination last.
abbrev head_tokens : Job → List Text
head_tokens j =
    if j.ipv6
    then codes "ping" ∷ codes "ipv6" ∷ []
    else if is_empty j.vpn_instance
    then codes "ping" ∷ []
    else codes "ping" ∷ codes "-vpn-instance" ∷ j.vpn_instance ∷ []

abbrev option_tokens : Job → List Text
option_tokens j =
    codes "-c"
    ∷ show_ℤ j.count
    ∷ codes "-m"
    ∷ show_ℤ (milliseconds j.packet_interval)
    ∷ codes "-t"
    ∷ show_ℤ (milliseconds j.timeout)
    ∷ codes "-s"
    ∷ show_ℤ j.size
    ∷ (if j.ipv6 then codes "-tc" else codes "-tos")
    ∷ show_ℕ j.tos
    ∷ codes "-a"
    ∷ j.source
    ∷ []

abbrev tail_tokens : Job → List Text
tail_tokens j =
    if j.ipv6
    then (if is_empty j.vpn_instance
        then j.target ∷ []
        else codes "vpn-instance" ∷ j.vpn_instance ∷ j.target ∷ [])
    else j.target ∷ []

abbrev pub tokens : Job → List Text
tokens j = head_tokens j ++ option_tokens j ++ tail_tokens j

pub record IsWritable (j : Job) : Type 0 where
  pub target_token : IsToken j.target
  pub source_token : IsToken j.source
  pub vpn_token : All (λ c. is_space c ≡ false) j.vpn_instance

abbrev with_family : Job → Bool → Text → Job
with_family j v6 vpn = record j { ipv6 = v6; vpn_instance = vpn }

build_command-join_of :
    (j : Job) (v6 : Bool) (vpn : Text)
    → build_command (with_family j v6 vpn) ≡ join_tokens (tokens (with_family j v6 vpn))
unfolding build_command
build_command-join_of j true [] = refl
build_command-join_of j true (c ∷ vpn) = simp append_assoc
build_command-join_of j false [] = refl
build_command-join_of j false (c ∷ vpn) = simp append_assoc

build_command-join : (j : Job) → build_command j ≡ join_tokens (tokens j)
build_command-join j = build_command-join_of j j.ipv6 j.vpn_instance

tokens-IsToken : (j : Job) → IsWritable j → All IsToken (tokens j)
tokens-IsToken j w = ground (
  arith,
  show_ℤ-IsToken j.count,
  show_ℤ-IsToken (milliseconds j.packet_interval),
  show_ℤ-IsToken (milliseconds j.timeout),
  show_ℤ-IsToken j.size,
  digits-IsToken j.tos,
)

-- The router reads exactly these options with these values, and the target as the last word:
-- no value is split, joined to another or read as an option of its own.
pub fields-build_command : (j : Job) → IsWritable j → fields (build_command j) ≡ tokens j
fields-build_command j w =
    rw build_command-join (fields-join_tokens (tokens j) (tokens-IsToken j w))

join_tokens-one_line : (ts : List Text) → All IsToken ts → All (λ c. c ≢ 10) (join_tokens ts)
join_tokens-one_line [] h = tt
join_tokens-one_line (t ∷ []) (p, h) = All-map t (λ c q. ground arith) p.1
join_tokens-one_line (t ∷ u ∷ ts) (p, h) =
    All-append (λ c. c ≢ 10) t (32 ∷ join_tokens (u ∷ ts)) (All-map t (λ c q. ground arith) p.1)
      (ground arith, join_tokens-one_line (u ∷ ts) h)

-- The command is one line.
pub build_command-one_line : (j : Job) → IsWritable j → All (λ c. c ≢ 10) (build_command j)
build_command-one_line j w =
    rw build_command-join (join_tokens-one_line (tokens j) (tokens-IsToken j w))

EndsIn : Text → Text → Type 0
EndsIn w s = (front : Text) × (s ≡ front ++ w)

EndsIn-front : (w : Text) (u s : Text) → EndsIn w s → EndsIn w (u ++ s)
unfolding EndsIn
EndsIn-front w u s (front, e) = (u ++ front, ap (λ t. u ++ t) e ∙ sym (append_assoc u front w))

EndsIn-same : (w : Text) → EndsIn w w
unfolding EndsIn
EndsIn-same w = ([], refl)

build_command-EndsIn : (j : Job) → EndsIn j.target (build_command j)
unfolding build_command
build_command-EndsIn j = search (EndsIn-front, EndsIn-same) depth 22

-- The target is in it.
pub build_command-target : (j : Job) → contains_text (build_command j) j.target ≡ true
unfolding EndsIn
build_command-target j =
    let (front, e) = build_command-EndsIn j in rw e (contains_text-end front j.target)
