-- ===== src/Provision/Tests.antt =====
-- A network whose name and password have two letters each.
use bk_solution_doorbell.Base.{ℕ, [], ◌∷◌, get_or}
use bk_solution_doorbell.Provision.{BoardingInfo, credentials, framed}

abbrev network : BoardingInfo
network = record { ssid_value = 104 ∷ 111 ∷ []; password_value = 112 ∷ 119 ∷ []; channel = 0 }

abbrev memory : ℕ → ℕ
memory i = get_or (framed 1 (credentials network)) i 99

abbrev own : BoardingInfo
own = record { ssid_value = []; password_value = []; channel = 6 }
