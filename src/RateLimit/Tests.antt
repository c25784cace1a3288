-- ===== src/RateLimit/Tests.antt =====
-- Two clients with one token each.
use x_ui_subpage.Prelude.{◌≡◌, refl, ℕ, String, Bool, true, false, List, [], ◌∷◌, Result, err, new}
use x_ui_subpage.Prelude.Int.{pos, pos_part}
use x_ui_subpage.RateLimit.{
  Rate, Limiter, too_many_requests, next, at, put, serve, bucket_of, new as new_limits,
}
use x_ui_subpage.RateLimit.Independence.{answers_to, times_of, alone, serve-alone}

abbrev take_one : ℕ → ℕ × Bool
take_one ℕ.zero = (0, false)
take_one (ℕ.suc n) = (n, true)

-- Buckets that nobody fills.
abbrev unfilled : Rate ℕ
unfilled = record { new_limiter = λ _ burst. pos_part burst; allow = λ _ b. take_one b }

abbrev requests : List (ℕ × String)
requests = (1, "a") ∷ (2, "b") ∷ (3, "a") ∷ []

abbrev no_port : String → Result (String × String)
no_port s = err (new "missing port in address")

abbrev limits : Limiter ℕ
limits = new_limits (pos 60) (pos 0)

served :
    serve unfilled no_port requests limits
    ≡ ("a", next) ∷ ("b", next) ∷ ("a", too_many_requests) ∷ []
unfolding serve at put new_limits
served = refl

serve-alone_example :
    answers_to "b" (serve unfilled no_port requests limits)
    ≡ alone unfilled (bucket_of unfilled limits "b") (times_of no_port "b" requests)
serve-alone_example = serve-alone unfilled no_port "b" requests limits
