-- ===== src/Examples/Logins.antt =====
-- The limiter at concrete requests.
use coder_er.Base.{◌≡◌, refl, ◌≤◌, ◌⊎◌, true, List, [], ◌∷◌, arith}
use coder_er.Base.Dict
use coder_er.Judge.Limiter.{
  record_success, record_failure, Options, Request, ask, failure, success, create, is_limited,
  serve_all,
}
use coder_er.Judge.Limiter.Windows.{is_limited-global, failure_times, own_failures, recent_count}
use coder_er.Judge.Limiter.Lockout.{is_limited-cause}

abbrev small : Options
small = record {
  window_ms = 100;
  max_failures_per_ip = 2;
  max_failures_global = 3;
  max_tracked_ips = 2;
}

abbrev requests : List Request
requests =
    failure "a" 1 ∷ failure "b" 2 ∷ ask "a" 3 ∷ failure "c" 4 ∷ success "b" ∷ failure "a" 5 ∷ []

is_limited-global_example : (is_limited small "d" 10 (serve_all small requests create)).0 ≡ true
is_limited-global_example =
    is_limited-global small "d" 10 requests
      (omega arith, (omega arith, (omega arith, (omega arith, (tt, (omega arith, tt))))))
      (omega arith)

-- Two failures of one address, under the global maximum.
abbrev own : List Request
own = failure "a" 1 ∷ success "b" ∷ failure "a" 5 ∷ []

is_limited-cause_example :
    (3 ≤ recent_count small 10 (failure_times own))
    ⊎ (2 ≤ recent_count small 10 (own_failures "a" own []))
unfolding is_limited serve_all record_failure record_success Dict.get Dict.delete Dict.set
is_limited-cause_example =
    is_limited-cause small "a" 10 own (omega arith, (tt, (omega arith, tt))) refl
