-- ===== src/Utils/Database/Handlers.antt =====
-- What calls of `connect` of src/utils/database.ts leave registered.
use transaction_service.Shared.{ℕ, zero, suc, List, [], ◌∷◌, ◌++◌, ◌≡◌, refl, length, ap}
use transaction_service.Driver.Errors.{Result, ok, err}
use transaction_service.Utils.Database.{
  MongoSettings, connect_uri, connect_options, Handler, on_connected, on_error, on_disconnected,
  on_sigint, Mongoose, connected, connect,
}

-- One attempt to connect after the other; what each has ended in, the newest first.
module _ {W : Type 0} (mongoose : Mongoose W) (env : MongoSettings) where
  unfoldable pub connect_times : ℕ → W → List Handler → List (Result Unit) × W × List Handler
  connect_times zero w hs = ([], w, hs)
  connect_times (suc n) w hs =
      let (results, w', hs') = connect_times n w hs in
      let (result, w'', hs'') = connect mongoose env w' hs' in (result ∷ results, w'', hs'')

abbrev pub successes : List (Result Unit) → ℕ
successes [] = 0
successes (ok _ ∷ rs) = suc (successes rs)
successes (err _ ∷ rs) = successes rs

-- The handlers of the connection and of SIGINT, over and over.
abbrev pub copies : ℕ → List Handler
copies zero = []
copies (suc n) = copies n ++ (on_connected ∷ on_error ∷ on_disconnected ∷ on_sigint ∷ [])

registered :
    {W : Type 0} (x : Result Unit × W) (hs : List Handler) (rs : List (Result Unit))
    → hs ≡ copies (successes rs)
    → let (result, _, hs') = connected x hs in hs' ≡ copies (successes (result ∷ rs))
registered (ok u, w) hs rs same = rw same refl
registered (err e, w) hs rs same = same

-- After any number of calls of `connect`, the registered handlers are those of the connection and of
-- SIGINT, in their order, once for each call that has succeeded: a call that fails registers none
-- of them, and nothing removes any.
pub connect_times-copies :
    {W : Type 0} (mongoose : Mongoose W) (env : MongoSettings) (n : ℕ) (w : W)
    → let (results, _, hs) = connect_times mongoose env n w [] in
      (length results ≡ n) × (hs ≡ copies (successes results))
unfolding connect_times connect
connect_times-copies mongoose env zero w = (refl, refl)
connect_times-copies mongoose env (suc n) w =
    let (results, w', hs) = connect_times mongoose env n w [] in
    let (counted, same) = connect_times-copies mongoose env n w in
    (
      ap suc counted,
      registered (mongoose.connect_to (connect_uri env) (connect_options env) w') hs results same,
    )
