-- ===== src/Config/Row/Complete.antt =====
-- src/config/resolve/row.rs: what a completed row has.
use mathlib.Core.Path.{subst}
use brazen.Base.{
  Bool, true, false, not, ◌&&◌, Option, none, some, Bytes, is_some, or_else, ◌≡◌, refl, arith,
}
use brazen.Base.Result.{Result, ok, on_ok}
use brazen.Config.Errors.{ConfigError}
use brazen.Config.Partial.{PartialProvider}
use brazen.Config.Provider.{Provider, is_no_auth, is_oauth2}
use brazen.Config.Row.{
  ok_or, refuse_if, bearer_header, url_of, provider_of, authenticated, complete,
}

pub on_pass {κ} :
    {A : Type 0} {P : Type κ} (test : Bool) (e : ConfigError) (rest : Result ConfigError A) {a : A}
    → refuse_if test e rest ≡ ok a
    → (test ≡ false → rest ≡ ok a → P)
    → P
on_pass true e rest h k = absurd cc
on_pass false e rest h k = k refl h

ok_or-eq-ok : {A : Type 0} (o : Option A) (e : ConfigError) {a : A} → ok_or o e ≡ ok a → o ≡ some a
ok_or-eq-ok none e h = cc
ok_or-eq-ok (some a) e h = cc

-- What a provider has that a row completes to.
pub record IsComplete {V : Type 0} (name : Bytes) (row : PartialProvider V) (p : Provider)
    : Type 0 where
  pub named : p.name ≡ name
  pub protocol : row.protocol ≡ some p.protocol
  pub auth : row.auth ≡ some p.auth
  -- every row that needs a credential has the header that carries it
  pub header : is_no_auth p.auth ≡ false → is_some p.api_header ≡ true
  pub signs_in : is_oauth2 p.auth ≡ true → is_some p.oauth ≡ true
  pub one_child : is_some p.exec ≡ true → is_some p.transport ≡ false
  pub address : is_some p.exec ≡ false → row.base_url ≡ some p.base_url

url_of-address :
    (name : Bytes) (base_url : Option Bytes) (exec : Bool) {url : Bytes}
    → url_of name base_url exec ≡ ok url
    → exec ≡ false
    → base_url ≡ some url
url_of-address name (some u) exec h e = cc
url_of-address name none true h e = cc
url_of-address name none false h e = cc

guard_lem : (a b : Bool) → not a && not b ≡ false → a ≡ false → b ≡ true
guard_lem a b h e = ground arith

needs_lem : (a b : Bool) → a && not b ≡ false → a ≡ true → b ≡ true
needs_lem a b h e = ground arith

both_lem : (a b : Bool) → a && b ≡ false → a ≡ true → b ≡ false
both_lem a b h e = ground arith

-- A row that completes to a provider under a name has what `IsComplete` lists: its name, protocol
-- and kind of authentication, a header where it needs a credential, an OAuth table where it signs
-- in, not both a program and a transport, and an address unless it has a program.
pub complete-IsComplete :
    {V : Type 0} (name : Bytes) (row : PartialProvider V) (p : Provider)
    → complete name row ≡ ok p
    → IsComplete name row p
unfolding complete authenticated
complete-IsComplete name row p h =
    on_ok (url_of name row.base_url (is_some row.exec)) _ h λ url u h1.
      on_pass (is_some row.exec && is_some row.transport) _ _ h1 λ one h2.
        on_ok (ok_or row.protocol _) _ h2 λ protocol pr h3.
          on_ok (ok_or row.auth _) _ h3 λ auth au h4.
            on_pass
              (not (is_no_auth auth) && not (is_some (or_else row.api_header (bearer_header auth))))
              _ _ h4
              λ headed h5. on_pass (is_oauth2 auth && not (is_some row.oauth)) _ _ h5 λ signed h6.
                let same : provider_of name row url protocol auth
                      (or_else row.api_header (bearer_header auth))
                    ≡ p =
                  cc in
                subst (IsComplete name row) same (record {
                  named = refl;
                  protocol = ok_or-eq-ok row.protocol _ pr;
                  auth = ok_or-eq-ok row.auth _ au;
                  header = guard_lem (is_no_auth auth) _ headed;
                  signs_in = needs_lem (is_oauth2 auth) _ signed;
                  one_child = both_lem (is_some row.exec) _ one;
                  address = url_of-address name row.base_url (is_some row.exec) u;
                })
