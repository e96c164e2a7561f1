-- ===== src/Tests/Hostname.antt =====
-- The host name tree at concrete names.
use spacegate.Common.{ℕ, Str, codes, ◌≡◌, refl, suc, none, some, List, [], ◌∷◌, to_ascii_lowercase}
use spacegate.Hostname.Node as Node
use spacegate.Hostname.Node.{Node, new, labels, append_by_iter}
use spacegate.Hostname.Exact.{set_all, get-set_all, Chosen}
use spacegate.Hostname.Modify.{changed}
use spacegate.Hostname.Tree as Tree
use spacegate.Hostname.Tree.{HostnameTree, empty}
use spacegate.Hostname.Tree.Mutation.{answer_of, answer_of-get_mut}
use spacegate.Tests.Data.{no_address}

abbrev rules : List (Str × ℕ)
rules =
    (codes "*.example.com", 1)
    ∷ (codes "api.*.example.com", 2)
    ∷ (codes "example.com", 3)
    ∷ (codes "*.com", 4)
    ∷ []

abbrev tree : HostnameTree ℕ
tree = record {
  ipv4 = [];
  ipv6 = [];
  host = Node.set new (codes "example.com") 3;
  fallback = some 9;
}

-- The names that the source's own test looks up.
names_of_the_test :
    (Node.get (set_all new rules) (codes "apL.v1.example.com") ≡ some 1)
    × (Node.get (set_all new rules) (codes "api.v2.example.com") ≡ some 2)
    × (Node.get (set_all new rules) (codes "Example.com") ≡ some 3)
    × (Node.get (set_all new rules) (codes "baidu.com") ≡ some 4)
    × (Node.get (set_all new rules) (codes "com") ≡ none)
unfolding Node.get Node.set set_all Node.find Node.put
names_of_the_test = (refl, refl, refl, refl, refl)

get-set_all_example :
    Chosen rules
      (labels (to_ascii_lowercase (codes "API.v1.example.com")))
      (Node.get (set_all new rules) (codes "API.v1.example.com"))
get-set_all_example = get-set_all rules (codes "API.v1.example.com")

answer_of-get_mut_example :
    answer_of no_address no_address suc
      (codes "example.com:80")
      (Tree.get_mut no_address no_address suc tree (codes "example.com:80"))
    ≡ changed suc (Tree.get no_address no_address tree (codes "example.com:80"))
answer_of-get_mut_example =
    answer_of-get_mut no_address no_address suc tree (codes "example.com:80")
