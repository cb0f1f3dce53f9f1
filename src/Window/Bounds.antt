-- ===== src/Window/Bounds.antt =====
-- How many requests the window lets through.
use nexlog_server.Base.{
  ℕ, zero, suc, ◌+◌, ◌-◌, ◌*◌, ◌≤◌, ◌<◌, String, ◌≡◌, refl, ap, Bool, List, [], ◌∷◌, ◌++◌, min,
  arith, eq_iff, All, if◌then◌else◌, length,
}
use nexlog_server.Window.{IpEntry, WindowLimiter, entry_or_new, count_request, allow, answers}

abbrev pub entry : String → WindowLimiter → IpEntry
entry ip rl = entry_or_new (rl.ips ip)

-- The number of requests that were let through.
unfoldable pub allowed_count : List Bool → ℕ
allowed_count [] = 0
allowed_count (b ∷ bs) = if b then suc (allowed_count bs) else allowed_count bs

pub entry-allow :
    (now : ℕ) (ip : String) (rl : WindowLimiter)
    → (entry ip (allow now ip rl).1 ≡ (count_request now rl.max rl.window (entry ip rl)).1)
      × ((allow now ip rl).1.max ≡ rl.max)
      × ((allow now ip rl).1.window ≡ rl.window)
      × ((allow now ip rl).0 ≡ (count_request now rl.max rl.window (entry ip rl)).0)
unfolding allow
entry-allow now ip rl = ground (arith, eq_iff ip ip)

abbrev replicate : ℕ → ℕ → List ℕ
replicate zero t = []
replicate (suc n) t = t ∷ replicate n t

-- The answers from the entry alone.
entry_answers : List ℕ → ℕ → ℕ → IpEntry → List Bool
entry_answers [] max window e = []
entry_answers (now ∷ times) max window e =
    let (allowed, e') = count_request now max window e in
    allowed ∷ entry_answers times max window e'

answers_lem :
    (times : List ℕ) (ip : String) (rl : WindowLimiter)
    → answers times ip rl ≡ entry_answers times rl.max rl.window (entry ip rl)
unfolding answers entry_answers
answers_lem [] ip rl = refl
answers_lem (now ∷ times) ip rl =
    let rest = answers_lem times ip (allow now ip rl).1 in
    let (same, max_same, window_same, decision) = entry-allow now ip rl in
    rw (rest, same, max_same, window_same, decision) refl

-- Inside a window: what is left of the allowance is let through, and no more.
in_window :
    (times : List ℕ) (max window : ℕ) (e : IpEntry)
    → All (λ t. t ≤ e.reset_at) times
    → allowed_count (entry_answers times max window e) ≡ min (length times) (max - e.count)
unfolding entry_answers allowed_count count_request
in_window [] max window e h = omega arith
in_window (now ∷ times) max window e (h, hs) =
    ground (arith, in_window times max window (record e { count = suc e.count }) hs)

fresh_window :
    (now : ℕ) (times : List ℕ) (max window : ℕ) (e : IpEntry)
    → e.reset_at < now
    → All (λ t. t ≤ now + window) times
    → allowed_count (entry_answers (now ∷ times) max window e) ≡ min (suc (length times)) max
unfolding entry_answers allowed_count count_request
fresh_window now times max window e over inside =
    let opened : IpEntry = record { count = 1; reset_at = now + window } in
    ground (arith, in_window times max window opened inside)

-- The first request after a window opens another, and of all requests until that ends exactly the
-- first `max` are let through, whatever came before.
pub count-answers :
    (now : ℕ) (times : List ℕ) (ip : String) (rl : WindowLimiter)
    → (entry ip rl).reset_at < now
    → All (λ t. t ≤ now + rl.window) times
    → allowed_count (answers (now ∷ times) ip rl) ≡ min (suc (length times)) rl.max
count-answers now times ip rl over inside =
    rw (answers_lem (now ∷ times) ip rl)
      (fresh_window now times rl.max rl.window (entry ip rl) over inside)

All-replicate : (n t bound : ℕ) → t ≤ bound → All (λ u. u ≤ bound) (replicate n t)
All-replicate zero t bound h = tt
All-replicate (suc n) t bound h = (h, All-replicate n t bound h)

length-replicate : (n t : ℕ) → length (replicate n t) ≡ n
length-replicate zero t = refl
length-replicate (suc n) t = ap suc (length-replicate n t)

-- The entry after requests at the given times.
after : List ℕ → ℕ → ℕ → IpEntry → IpEntry
after [] max window e = e
after (now ∷ times) max window e = after times max window (count_request now max window e).1

after_in_window :
    (times : List ℕ) (max window : ℕ) (e : IpEntry)
    → All (λ t. t ≤ e.reset_at) times
    → (after times max window e).reset_at ≡ e.reset_at
unfolding after count_request
after_in_window [] max window e h = refl
after_in_window (now ∷ times) max window e (h, hs) =
    ground (arith, after_in_window times max window (record e { count = suc e.count }) hs)

count-append :
    (xs ys : List ℕ) (max window : ℕ) (e : IpEntry)
    → allowed_count (entry_answers (xs ++ ys) max window e)
      ≡ allowed_count (entry_answers xs max window e)
        + allowed_count (entry_answers ys max window (after xs max window e))
unfolding entry_answers allowed_count after
count-append [] ys max window e = omega arith
count-append (x ∷ xs) ys max window e =
    ground (arith, count-append xs ys max window (count_request x max window e).1)

-- The windows do not slide: where `max` is positive and the last window is over, `max` requests in
-- the next window, up to its end, and `max` more one nanosecond later are all let through.
pub count-boundary :
    (now : ℕ) (m : ℕ) (ip : String) (rl : WindowLimiter)
    → (entry ip rl).reset_at < now
    → rl.max ≡ suc m
    → allowed_count (
        answers
          (now ∷ (replicate m (now + rl.window) ++ replicate (suc m) (now + rl.window + 1)))
          ip
          rl)
      ≡ 2 * rl.max
unfolding entry_answers allowed_count count_request
count-boundary now m ip rl over max =
    let xs = replicate m (now + rl.window) in
    let ys = replicate (suc m) (now + rl.window + 1) in
    let opened : IpEntry = record { count = 1; reset_at = now + rl.window } in
    let inside : All (λ t. t ≤ opened.reset_at) xs =
      All-replicate m (now + rl.window) (now + rl.window) (omega arith) in
    let later : All (λ t. t ≤ now + rl.window + 1 + rl.window) (replicate m (now + rl.window + 1)) =
      All-replicate m (now + rl.window + 1) (now + rl.window + 1 + rl.window) (omega arith) in
    let second =
      fresh_window (now + rl.window + 1) (replicate m (now + rl.window + 1)) rl.max rl.window
        (after xs rl.max rl.window opened)
        (omega (arith, after_in_window xs rl.max rl.window opened inside)) later in
    rw (answers_lem (now ∷ (xs ++ ys)) ip rl) (
      ground (
        arith,
        count-append xs ys rl.max rl.window opened,
        in_window xs rl.max rl.window opened inside,
        second,
        length-replicate m (now + rl.window),
        length-replicate m (now + rl.window + 1),
      ))
