-- ===== src/Hub/Auth/Visits.antt =====
-- nodes/brainstem_4070/auth.py: a sequence of requests, each of which `require_token` answers.
use project_nexus.Prelude.{ℕ, Option, List, [], ◌∷◌, String}
use project_nexus.Hub.Auth.Token.{Kdf}
use project_nexus.Hub.Auth.Store.{TokenStore, require_token}

-- `written` is the mtime of the file where the use of a token could be written to it.
pub record Visit : Type 0 where
  pub written : Option ℕ
  pub now : String
  pub header : Option String

unfoldable pub visit : Kdf → Visit → TokenStore → TokenStore
visit kdf v s = (require_token kdf v.written v.now s v.header).1

unfoldable pub visit_all : Kdf → List Visit → TokenStore → TokenStore
unfolding visit
visit_all kdf [] s = s
visit_all kdf (v ∷ vs) s = visit_all kdf vs (visit kdf v s)
