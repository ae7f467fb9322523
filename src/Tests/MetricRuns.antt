-- ===== src/Tests/MetricRuns.antt =====
-- Metrics and locks on concrete values: pkg/metric and pkg/storage/lock.go.
use go_inbucket.Base.{ℕ, ◌≡◌, ◌<◌, ◌+◌, ◌*◌, refl, [], ◌∷◌, txt, ◌++◌}
use go_inbucket.Metric.{push, push_all, join, last_61, push-join, metrics_ticker, tick, add_func}
use go_inbucket.Storage.Lock.{get_lock, lock, no_lock, out_of_range, get_lock-digits, hex_value}

joined_three :
    (push (push_all [] (txt "1" ∷ txt "2" ∷ [])) (txt "3")).1
    ≡ join (last_61 ((txt "1" ∷ txt "2" ∷ []) ++ txt "3" ∷ []))
joined_three = push-join (txt "1" ∷ txt "2" ∷ []) (txt "3")

text_of_three : (push (push_all [] (txt "1" ∷ txt "2" ∷ [])) (txt "3")).1 ≡ txt "1,2,3"
unfolding push push_all txt
text_of_three = refl

ticks : metrics_ticker {F = ℕ} [] (add_func 1 ∷ tick ∷ add_func 2 ∷ tick ∷ []) ≡ 1 ∷ 1 ∷ 2 ∷ []
unfolding metrics_ticker
ticks = refl

lock_of_f0a :
    (get_lock (b'f' ∷ b'0' ∷ b'A' ∷ []) ≡ lock (15 * 256 + 0 * 16 + 10))
    × (15 * 256 + 0 * 16 + 10 < 4096)
unfolding hex_value
lock_of_f0a = get_lock-digits b'f' b'0' b'A' 15 0 10 [] refl refl refl

-- A hash that begins with a sign is no hexadecimal text.
signed : (get_lock (txt "-12") ≡ out_of_range) × (get_lock (txt "1x2") ≡ no_lock)
unfolding get_lock txt hex_value
signed = (refl, refl)
