-- ===== src/Server/V1.antt =====
-- server/v1.go and router.go: the handlers of /api/v1/mapping and /health. What gin binds from the
-- request is an argument.
use pod_proxier.Base.{Bool, true, false, none, some, if◌then◌else◌}
use pod_proxier.Base.Int.{ℤ, pos, ltb_ℤ}
use pod_proxier.Base.Action.{Action}
use pod_proxier.GoString.{GoString, str}
use pod_proxier.Haproxy.Response.{GoError}
use pod_proxier.Pod.State.{Controller, PodCluster}
use pod_proxier.Pod.Mapping.{query_pod_exists, create_mapping}
use pod_proxier.Server.Answer.{
  other, operation_succeeded, err_not_fount, Answer, answer, null, text,
}

-- context.Bind: the bound value, or an error.
pub data Bound (A : Type 0) : Type 0 where
  bound : A → Bound A
  unbound : GoString → Bound A

pub record ProxyMapping : Type 0 where
  pub pod_name : GoString
  pub time : ℤ

unfoldable pub ping : Answer
unfolding answer
ping = answer operation_succeeded (text (str "pong"))

-- `time.Duration(t) > time.Hour*3`, where t counts seconds and a Duration counts nanoseconds, and
-- the number of seconds that goes on.
unfoldable pub limit_time : ℤ → ℤ
limit_time t = if ltb_ℤ (pos (10800000000000)) t then pos 10800 else t

-- gin's Bind has written the status 400 when it fails, and what follows only adds the body.
unfoldable pub refusal : GoString → Answer
refusal e = record (answer (other e) null) { status = 400 }

abbrev pub found_answer : GoString → Bool → Answer
found_answer name true = answer operation_succeeded null
found_answer name false = answer err_not_fount (text name)

abbrev pub create_answer : GoError → Answer
create_answer none = answer operation_succeeded null
create_answer (some e) = answer (other e) null

module _ (k : PodCluster) (c : Controller) where
  abbrev World : Type 0
  World = (k.api).World

  unfoldable pub query : Bound GoString → Action World Answer
  query (unbound e) w = (refusal e, w)
  query (bound name) w = let (b, w') = query_pod_exists k c name w in (found_answer name b, w')

  unfoldable pub create : Bound ProxyMapping → Action World Answer
  create (unbound e) w = (refusal e, w)
  create (bound m) w =
      let (e, w') = create_mapping k c m.pod_name (limit_time m.time) w in (create_answer e, w')
