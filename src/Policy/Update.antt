-- ===== src/Policy/Update.antt =====
-- What `apply_update` of policy/model.rs guarantees.
use codetracer_python_record.Prelude.{
  ◌≡◌, refl, Bool, true, ◌&&◌, Option, none, some, arith, unwrap_or, Text,
}
use codetracer_python_record.Policy.{
  RecorderPolicy, IoCapturePolicy, PolicyUpdate, PolicyPath, clear, value, new_log_level,
  new_log_file, set_line_proxies, set_fd_fallback, apply_update,
}

-- The mirror of the file descriptors is never on without the proxies.
abbrev pub IsConsistent : RecorderPolicy → Type 0
IsConsistent p = p.io_capture.fd_fallback ≡ true → p.io_capture.line_proxies ≡ true

-- An update of a policy in which the mirror is on only with the proxies sets the proxies as
-- asked for, or leaves them, sets the mirror as asked for, or leaves it, except that it is off
-- where the proxies end up off, and keeps the mirror on only with the proxies.
pub apply_update_io :
    (p : RecorderPolicy) (u : PolicyUpdate)
    → IsConsistent p
    → let io = (apply_update p u).io_capture in
      (io.line_proxies ≡ unwrap_or u.io_capture_line_proxies p.io_capture.line_proxies)
      × (io.fd_fallback
          ≡ (io.line_proxies && unwrap_or u.io_capture_fd_fallback p.io_capture.fd_fallback))
      × IsConsistent (apply_update p u)
unfolding apply_update set_line_proxies set_fd_fallback
apply_update_io p u c = (ground arith, ground arith, λ h. ground arith)

log_level_twice :
    (l old : Option Text) → new_log_level l (new_log_level l old) ≡ new_log_level l old
unfolding new_log_level
log_level_twice none old = refl
log_level_twice (some level) old = refl

log_file_twice :
    (f : Option PolicyPath) (old : Option Text)
    → new_log_file f (new_log_file f old) ≡ new_log_file f old
unfolding new_log_file
log_file_twice none old = refl
log_file_twice (some clear) old = refl
log_file_twice (some (value path)) old = refl

unwrap_or_twice : {A : Type 0} (o : Option A) (d : A) → unwrap_or o (unwrap_or o d) ≡ unwrap_or o d
unwrap_or_twice none d = refl
unwrap_or_twice (some a) d = refl

io_twice :
    (l f : Option Bool) (io : IoCapturePolicy)
    → let io' = set_fd_fallback f (set_line_proxies l io) in
      set_fd_fallback f (set_line_proxies l io') ≡ io'
unfolding set_line_proxies set_fd_fallback
io_twice l f io = ground arith

-- To apply a policy update twice is to apply it once.
apply_update_idem :
    (p : RecorderPolicy) (u : PolicyUpdate) → apply_update (apply_update p u) u ≡ apply_update p u
unfolding apply_update
apply_update_idem p u = simp (unwrap_or_twice, log_level_twice, log_file_twice, io_twice)
