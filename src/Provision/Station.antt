-- ===== src/Provision/Station.antt =====
-- The way of an SSID and a password from the coprocessor to the station.
use bk_solution_doorbell.Base.{
  ℕ, ◌≡◌, ◌≢◌, Option, none, some, List, length, ltb, All, if◌then◌else◌,
}
use bk_solution_doorbell.Provision.{bytes_at}

-- The memory holds the bytes at a position.
abbrev pub Holds : (ℕ → ℕ) → ℕ → List ℕ → Type 0
Holds data_at p xs = bytes_at data_at p (length xs) ≡ xs

-- Bytes that are not zero.
abbrev pub IsText : List ℕ → Type 0
IsText xs = All (λ b. b ≢ 0) xs

-- The station that is set up for an SSID and a password: none for a password of more than 32 bytes.
abbrev pub station_for : (ssid key : List ℕ) → Option (List ℕ × List ℕ)
station_for ssid key = if ltb 32 (length key) then none else some (ssid, key)
