-- ===== src/Utils/Redis.antt =====
-- `RedisClient` of src/utils/redis.ts. The client of the library ioredis is a parameter: what each
-- of its methods answers from a state of the world outside. Log lines are left out, and
-- `catch (error) { throw error; }` is kept as a failure that is handed on.
pub mod Delays
use transaction_service.Shared.{
  ℕ, zero, suc, ◌*◌, String, Option, none, some, Bool, true, false, ◌==◌, nat_eq, leb, Number,
  finite, pos, num_or, if◌then◌else◌,
}
use transaction_service.Driver.Errors.{Exception, Result, ok, err}
use transaction_service.Utils.Environment.{env_or, env_or_none}

-- `Math.min(times * 50, 2000)`
unfoldable pub retry_delay : ℕ → ℕ
retry_delay times = if leb (times * 50) 2000 then times * 50 else 2000

pub record RedisOptions : Type 0 where
  pub host : String
  pub port : Number
  pub password : Option String
  pub db : Number
  pub retry_strategy : ℕ → ℕ
  pub max_retries_per_request : ℕ

-- The variables of the environment, the numbers in hundredths.
pub record RedisSettings : Type 0 where
  pub redis_host : Option String
  pub redis_port : Number
  pub redis_password : Option String
  pub redis_db : Number

unfoldable pub redis_options : RedisSettings → RedisOptions
redis_options env = record {
  host = env_or env.redis_host "localhost";
  port = num_or env.redis_port (finite (pos 637900));
  password = env_or_none env.redis_password;
  db = num_or env.redis_db (finite (pos 0));
  retry_strategy = retry_delay;
  max_retries_per_request = 3;
}

-- The methods of ioredis that the code calls.
pub record Client (W : Type 0) : Type 0 where
  pub set_key : String → String → W → Result (Option String) × W
  pub set_key_ex : String → String → ℕ → W → Result (Option String) × W
  pub get_key : String → W → Result (Option String) × W
  pub del_key : String → W → Result ℕ × W
  pub exists_key : String → W → Result ℕ × W
  pub ping : W → Result String × W
  pub quit : W → Result String × W

-- `if (ttl)`
abbrev pub has_ttl : Option ℕ → Option ℕ
has_ttl (some zero) = none
has_ttl o = o

abbrev pub set_under :
    {W : Type 0} → Client W → String → String → Option ℕ → W → Result (Option String) × W
set_under client key value none w = client.set_key key value w
set_under client key value (some ttl) w = client.set_key_ex key value ttl w

abbrev pub map_result : {A B : Type 0} → (A → B) → Result A → Result B
map_result f (ok a) = ok (f a)
map_result f (err e) = err e

-- What a `catch` that returns makes of a result.
abbrev pub result_or : {A : Type 0} → A → Result A → A
result_or a (ok x) = x
result_or a (err e) = a

module _ {W : Type 0} (client : Client W) where
  unfoldable pub set : String → String → Option ℕ → W → Result (Option String) × W
  set key value ttl w = set_under client key value (has_ttl ttl) w

  unfoldable pub get : String → W → Result (Option String) × W
  get key w = client.get_key key w

  unfoldable pub del : String → W → Result ℕ × W
  del key w = client.del_key key w

  unfoldable pub exists : String → W → Result Bool × W
  exists key w =
      let (result, w') = client.exists_key key w in (map_result (λ n. nat_eq n 1) result, w')

  -- It never throws.
  unfoldable pub health_check : W → Bool × W
  health_check w =
      let (result, w') = client.ping w in
      (result_or false (map_result (λ s. s == "PONG") result), w')

  unfoldable pub disconnect : W → Result Unit × W
  disconnect w = let (result, w') = client.quit w in (map_result (λ s. tt) result, w')
