-- ===== src/Tests/Balancer.antt =====
-- Balancers over three services.
use spacegate.Common.{ℕ, codes, ◌≡◌, refl, none, some, [], ◌∷◌}
use spacegate.Balancer.{Request, Balancer, random_pick, serve}

abbrev three : Balancer ℕ
three = record { instances = 10 ∷ 20 ∷ 30 ∷ []; fallback = 0 }

abbrev from_peer : ℕ → Request
from_peer ip = record { peer = some ip; session = none }

abbrev in_session : ℕ → Request
in_session ip = record { peer = some ip; session = some (codes "session-a") }

abbrev id_hash : ℕ → ℕ
id_hash ip = ip

random_third : serve (random_pick 2) three (from_peer 7) ≡ 30
unfolding serve random_pick
random_third = refl
