-- ===== src/Throttle/Examples.antt =====
-- An instance for app/services/rate_limit.py: two processes, the second's clock ten milliseconds
-- ahead of the first's, and a second between requests.
use signal_map.Common.{◌+◌, ◌≤◌, [], ◌∷◌, arith}
use signal_map.Throttle.{throttle}
use signal_map.Throttle.Spacing.{Call, run_calls, throttle_spacing}

abbrev other_call : Call
other_call = record { key = "b"; now = 5; interval = 7 }

throttle_spacing_example :
    let (db1, wait) = throttle [] "a" (2000000 + 0) 1000000 in
    let (db2, wait') = throttle (run_calls db1 (other_call ∷ [])) "a" (2001000 + 10000) 1000000 in
    2000000 + wait + 1000000 ≤ 2001000 + wait' + 10000
throttle_spacing_example =
    throttle_spacing [] "a" 2000000 2001000 0 10000 10000 1000000 1000000 (other_call ∷ [])
      (omega arith)
