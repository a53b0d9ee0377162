-- ===== src/Client/Errors.antt =====
-- Exceptions on the way from a frame to its kind.
use steam_min_cpp.Prelude.{
  ℕ, ◌≡◌, refl, Bool, true, false, List, length, ltb, if◌then◌else◌, String,
}
use steam_min_cpp.Prelude.Results.{Result, ok, throws, undefined, ◌>>=◌}
use steam_min_cpp.Crypto.{Cipher}
use steam_min_cpp.Client.{CmClient, dropped, frame_data, read_emsg, consume_frame}

-- Every exception satisfies the predicate.
abbrev pub Only : {A : Type 0} → (String → Type 0) → Result A → Type 0
Only P (ok a) = Unit {0}
Only P (throws e) = P e
Only P undefined = Unit {0}

module _ (P : String → Type 0) where
  bind_Only :
      {A B : Type 0} (r : Result A) (f : A → Result B)
      → Only P r
      → ((a : A) → Only P (f a))
      → Only P (r >>= f)
  unfolding ◌>>=◌
  bind_Only (ok a) f h k = k a
  bind_Only (throws e) f h k = h
  bind_Only undefined f h k = tt

  if_Only :
      {A : Type 0} (b : Bool) (r t : Result A) → Only P r → Only P t → Only P (if b then r else t)
  if_Only true r t h k = h
  if_Only false r t h k = k

  read_emsg-Only : (data_bytes : List ℕ) → Only P (read_emsg data_bytes)
  unfolding read_emsg
  read_emsg-Only data_bytes = if_Only (ltb (length data_bytes) 4) undefined (ok _) tt tt

  from_equation : {A : Type 0} (r : Result A) → ((e : String) → r ≡ throws e → P e) → Only P r
  from_equation (ok a) h = tt
  from_equation (throws e) h = h e refl
  from_equation undefined h = tt

  -- An exception is one of the decryption.
  pub consume_frame-Only :
      (c : Cipher) (client : CmClient) (frame : List ℕ) (encrypt : Bool)
      → ((e : String) → frame_data c client frame encrypt ≡ throws e → P e)
      → Only P (consume_frame c client frame encrypt)
  unfolding consume_frame
  consume_frame-Only c client frame encrypt h = if_Only (ltb (length frame) 4) (ok dropped) _ tt (
      bind_Only (frame_data c client frame encrypt) _
        (from_equation (frame_data c client frame encrypt) h)
        λ data_bytes. bind_Only (read_emsg data_bytes) _ (read_emsg-Only data_bytes) λ emsg. tt)
