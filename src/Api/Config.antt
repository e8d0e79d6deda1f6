-- ===== src/Api/Config.antt =====
-- server/api/main.go: the configuration.
use facto.Base.{List, [], ◌∷◌}
use facto.Base.Int.{ℤ, pos}
use facto.Go.Text.{Bytes, codes}
use facto.Go.Env.{Env, text_or, int_or}

pub record Config : Type 0 where
  pub port : ℤ
  pub scylla_hosts : List Bytes

unfoldable pub load_config : Env → Config
load_config env = record {
  port = int_or (pos 8082) (env (codes "PORT"));
  scylla_hosts = text_or (codes "localhost:9042") (env (codes "SCYLLA_HOSTS")) ∷ [];
}
