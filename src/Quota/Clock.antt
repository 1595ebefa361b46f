-- ===== src/Quota/Clock.antt =====
-- The "HH:MM" clock of a schedule: reading and printing.
use nineguard.Base.{ℕ, ◌+◌, ◌/◌, ◌%◌, ◌<◌, ◌≡◌, [], ◌∷◌, some, arith}
use nineguard.Base.Text.{Text, decimal2-digits}
use nineguard.Quota.{digit, clock_value, parse_clock, format_clock}

format_clock-digits :
    (m : ℕ)
    → m < 1440
    → format_clock m
      ≡ (b'0' + m / 60 / 10)
        ∷ (b'0' + m / 60 % 10)
        ∷ b':'
        ∷ (b'0' + m % 60 / 10)
        ∷ (b'0' + m % 60 % 10)
        ∷ []
unfolding format_clock
format_clock-digits m h =
    rw (decimal2-digits (m / 60) (omega arith), decimal2-digits (m % 60) (omega arith))

-- Every minute of the day survives printing and reading back.
pub parse_clock-format_clock : (m : ℕ) → m < 1440 → parse_clock (format_clock m) ≡ some m
unfolding parse_clock
parse_clock-format_clock m h = rw (format_clock-digits m h) (ground arith)

clock_value-some :
    (a b d e m : ℕ)
    → clock_value (digit a) (digit b) (digit d) (digit e) ≡ some m
    → (m < 1440)
      × (a ≡ b'0' + m / 60 / 10)
      × (b ≡ b'0' + m / 60 % 10)
      × (d ≡ b'0' + m % 60 / 10)
      × (e ≡ b'0' + m % 60 % 10)
unfolding clock_value
clock_value-some a b d e m h = ground arith

-- What is read is a minute of the day, and prints as the text it was read from: the reader takes
-- no other spelling.
pub format_clock-parse_clock :
    (s : Text) (m : ℕ) → parse_clock s ≡ some m → (m < 1440) × (format_clock m ≡ s)
unfolding parse_clock
format_clock-parse_clock [] m h = cc
format_clock-parse_clock (a ∷ []) m h = cc
format_clock-parse_clock (a ∷ b ∷ []) m h = cc
format_clock-parse_clock (a ∷ b ∷ c ∷ []) m h = cc
format_clock-parse_clock (a ∷ b ∷ c ∷ d ∷ []) m h = cc
format_clock-parse_clock (a ∷ b ∷ c ∷ d ∷ e ∷ []) m h =
    let parts = clock_value-some a b d e m (ground arith) in
    (parts.0, rw (format_clock-digits m parts.0) (ground arith))
format_clock-parse_clock (a ∷ b ∷ c ∷ d ∷ e ∷ f ∷ s) m h = cc
