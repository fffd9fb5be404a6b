-- ===== src/Policy/Atomic.antt =====
-- The configuration entry points of policy/env.rs and policy/ffi.rs as updates of the global policy.
use codetracer_python_record.Prelude.{◌≡◌, refl, Bool, some, Text, arith}
use codetracer_python_record.Policy.{
  RecorderPolicy, PolicyUpdate, apply_update, set_line_proxies, set_fd_fallback,
}
use codetracer_python_record.Policy.Parse.{PolicyError, Result, ok, err, parse_capture_io}
use codetracer_python_record.Policy.Env.{
  Env, update_from_env, applied, configure_policy_from_env, PolicyArgs, update_from_args,
  configure_policy_py,
}
use codetracer_python_record.Policy.Update.{IsConsistent, apply_update_io}
use codetracer_python_record.Policy.Capture.{parse_capture_io-implies}

applied_lem :
    (p : RecorderPolicy) (r : Result PolicyUpdate)
    → ((e : PolicyError) → (applied p r).1 ≡ err e → (applied p r).0 ≡ p)
      × (IsConsistent p → IsConsistent (applied p r).0)
applied_lem p (ok u) = (λ e h. cc, λ c. (apply_update_io p u c).2)
applied_lem p (err e) = (λ e h. refl, λ c. c)

-- A configuration from the environment or from Python that reports an error leaves the policy as
-- it was, and every configuration keeps a policy in which the mirror is on only with the proxies
-- so.
pub configure_atomic :
    (p : RecorderPolicy) (env : Env) (args : PolicyArgs)
    → ((e : PolicyError)
        → (configure_policy_from_env p env).1 ≡ err e
        → (configure_policy_from_env p env).0 ≡ p)
      × ((e : PolicyError)
          → (configure_policy_py p args).1 ≡ err e
          → (configure_policy_py p args).0 ≡ p)
      × (IsConsistent p
          → IsConsistent (configure_policy_from_env p env).0
            × IsConsistent (configure_policy_py p args).0)
unfolding configure_policy_from_env configure_policy_py
configure_atomic p env args =
    let from_env = applied_lem p (update_from_env env) in
    let from_py = applied_lem p (update_from_args args) in
    (from_env.0, from_py.0, λ c. (from_env.1 c, from_py.1 c))

-- Where the environment gives a capture setting that parses, a configuration without error
-- makes the capture policy just what the setting says, whatever it was before.
configured_capture :
    (p : RecorderPolicy) (env : Env) (s : Text) (l f : Bool)
    → env "CODETRACER_CAPTURE_IO" ≡ some s
    → parse_capture_io s ≡ ok (l, f)
    → (configure_policy_from_env p env).1 ≡ ok tt
    → (configure_policy_from_env p env).0.io_capture ≡ record { line_proxies = l; fd_fallback = f }
unfolding configure_policy_from_env update_from_env apply_update set_line_proxies set_fd_fallback
configured_capture p env s l f h e done = ground (arith, parse_capture_io-implies s l f e)
