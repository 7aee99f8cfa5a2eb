-- ===== src/Scenarios/Proxies.antt =====
-- A request through one trusted proxy, with addresses of one letter.
use smokeng.Common.{ℕ, ◌==◌, ◌≡◌, refl, inr, any, false, Option, none, some, List, [], ◌∷◌, ◌++◌}
use smokeng.Common.Text.{codes, trim_space, is_space}
use smokeng.Access.ClientIp.{Net, client_ip, join_comma, split_comma, walk, has}
use smokeng.Access.Forwarded.{is_trusted, believed, client_ip-Forged}

abbrev letter : List ℕ → Option ℕ
letter [] = none
letter (c ∷ []) = some c
letter (c ∷ d ∷ s) = none

abbrev letters : Net ℕ ℕ
letters = record {
  parse_addr = letter;
  has_zone = λ ip. false;
  unmap = λ ip. ip;
  text_of = λ ip. ip ∷ [];
  contains = λ p ip. p == ip;
  split_host_port = λ s. some s;
}

-- The proxy P says that C asked, and a client that pretends to be F wrote before that.
client_run : client_ip letters (codes "P") (codes "P") (codes "F, C" ∷ codes "P" ∷ []) ≡ codes "C"
unfolding client_ip join_comma split_comma walk has any trim_space is_space
client_run = refl

client_ip-Forged_example :
    (client_ip letters (codes "P") (codes "P") (codes "F" ∷ codes "C" ∷ codes "P" ∷ [])
      ≡ believed letters (codes "P") (codes "P") (codes "C" ∷ codes "P" ∷ []))
    × (client_ip letters (codes "P") (codes "P") ((codes "F" ++ 44 ∷ codes "C") ∷ codes "P" ∷ [])
        ≡ believed letters (codes "P") (codes "P") (codes "C" ∷ codes "P" ∷ []))
unfolding is_trusted join_comma split_comma any trim_space is_space
client_ip-Forged_example =
    client_ip-Forged letters (codes "P") (codes "P") (codes "F") (codes "C") (codes "P" ∷ [])
      (inr refl)
