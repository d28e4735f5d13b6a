-- ===== src/Tests/Transfer.antt =====
-- The unit tests of `transfer_order`, crates/translator/src/lib.rs.
use sozu_gateway.Prelude.{ℕ, ◌≡◌, refl, none, some, List, [], ◌∷◌, ℕ_discrete}
use sozu_gateway.Prelude.Eq.{list_discrete, option_discrete, pair_discrete}
use sozu_gateway.Prelude.Order.{list_le, pair_le}
use sozu_gateway.Prelude.Order.Sort.{sort_by}
use sozu_gateway.Prelude.Order.Sets.{to_set}
use sozu_gateway.Prelude.Texts.{Text}
use sozu_gateway.Ir.{SocketAddr, SocketAddr_discrete, IpAddr_discrete, v4}
use sozu_gateway.Wire.{Request, RequestType, to_request}
use sozu_gateway.Wire.RequestType.{other}
use sozu_gateway.Translator.Certificates.Transfer.{Trade, SniKey, transfer_order}

abbrev listener : SocketAddr
listener = record { ip = v4 0; port = 443; flowinfo = 0; scope_id = 0 }

abbrev encoded_of : RequestType → Text
encoded_of (other t) = t
encoded_of _ = []

abbrev encoded : Request → Text
encoded r = elim r.request_type [ none ↦ [] | some k ↦ encoded_of k ]

abbrev name : ℕ → SniKey
name n = (listener, n ∷ [])

abbrev trade : ℕ → List SniKey → List SniKey → Trade
trade id gives takes = record {
  request = to_request (other (id ∷ []));
  gives = gives;
  takes = takes;
}

unrelated :
    transfer_order encoded (
      trade 3 (name 31 ∷ []) (name 32 ∷ [])
      ∷ trade 1 (name 11 ∷ []) (name 12 ∷ [])
      ∷ trade 2 (name 21 ∷ []) (name 22 ∷ [])
      ∷ [])
    ≡ 2 ∷ 0 ∷ 1 ∷ []
unfolding transfer_order sort_by to_set list_le pair_le list_discrete pair_discrete
    SocketAddr_discrete ℕ_discrete option_discrete IpAddr_discrete
unrelated = refl

chain :
    transfer_order encoded (
      trade 1 (name 11 ∷ []) (name 2 ∷ [])
      ∷ trade 2 (name 2 ∷ []) (name 1 ∷ [])
      ∷ trade 3 (name 1 ∷ []) (name 31 ∷ [])
      ∷ [])
    ≡ 2 ∷ 1 ∷ 0 ∷ []
unfolding transfer_order sort_by to_set list_le pair_le list_discrete pair_discrete
    SocketAddr_discrete ℕ_discrete option_discrete IpAddr_discrete
chain = refl

-- `p` and `q` swap x and y; `e` gives `q` w, `p` gives `d` z.
cycle :
    transfer_order encoded (
      trade 1 (name 41 ∷ []) (name 26 ∷ [])
      ∷ trade 2 (name 23 ∷ []) (name 51 ∷ [])
      ∷ trade 3 (name 25 ∷ name 26 ∷ []) (name 24 ∷ [])
      ∷ trade 4 (name 24 ∷ []) (name 25 ∷ name 23 ∷ [])
      ∷ [])
    ≡ 3 ∷ 0 ∷ 1 ∷ 2 ∷ []
unfolding transfer_order sort_by to_set list_le pair_le list_discrete pair_discrete
    SocketAddr_discrete ℕ_discrete option_discrete IpAddr_discrete
cycle = refl
