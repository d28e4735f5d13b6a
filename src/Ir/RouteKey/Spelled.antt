-- ===== src/Ir/RouteKey/Spelled.antt =====
-- What a route key tells of a frontend (`Frontend::sozu_route_key`, crates/ir/src/lib.rs): its parts
-- are read back from the text.
use mathlib.Core.Path.{subst}
use mathlib.Core.List.{append_assoc}
use sozu_gateway.Prelude.{
  ℕ, ◌≡◌, ◌≢◌, ◌↔◌, refl, sym, ap, ◌∙◌, false, Option, none, some, List, [], ◌∷◌, ◌++◌, arith,
}
use sozu_gateway.Prelude.Eq.{nat_eq}
use sozu_gateway.Prelude.Lists.{flat_map}
use sozu_gateway.Prelude.Lists.Keys.{contains}
use sozu_gateway.Prelude.Texts.{Text}
use sozu_gateway.Ir.{Frontend, HeaderMatch, HeaderMatchKind, SocketAddr, SozuPathRule, plain}
use sozu_gateway.Ir.Rule.{sozu_rule}
use sozu_gateway.Ir.Headers.{canonical, sozu_kind_and_value}
use sozu_gateway.Ir.RouteKey.{
  Show, SozuRouteKey, sozu_route_key, show_rule, show_method, show_kind, show_predicate,
}

-- No `;`
abbrev pub IsPart : Text → Type 0
IsPart t = contains b';' t ≡ false

-- Nothing, or what starts with `;`
abbrev IsTail : Text → Type 0
IsTail [] = Unit
IsTail (c ∷ s) = c ≡ b';'

-- Two texts are cut at the first `;` in the same way.
cut :
    (a b s t : Text)
    → IsPart a
    → IsPart b
    → IsTail s
    → IsTail t
    → (a ++ s) ≡ (b ++ t)
    → (a ≡ b) × (s ≡ t)
cut [] [] s t p q hs ht e = (refl, e)
cut [] (b ∷ bs) [] t p q hs ht e = cc
cut [] (b ∷ bs) (c ∷ s) t p q hs ht e = ground (arith, hs, q, e)
cut (a ∷ l) [] s [] p q hs ht e = cc
cut (a ∷ l) [] s (c ∷ t) p q hs ht e = ground (arith, ht, p, e)
cut (a ∷ l) (b ∷ bs) s t p q hs ht e =
    let head : a ≡ b = cc in
    let tail : (l ++ s) ≡ (bs ++ t) = cc in
    let (same, rest) = cut l bs s t (ground (arith, p)) (ground (arith, q)) hs ht tail in
    (cc (head, same), rest)

-- The kind's digit.
abbrev digit : HeaderMatchKind → ℕ
digit (HeaderMatchKind.exact v) = b'0'
digit (HeaderMatchKind.regex v) = b'1'

abbrev letter : SozuPathRule → ℕ
letter (SozuPathRule.prefix v) = b'P'
letter (SozuPathRule.regex v) = b'R'

abbrev pub rule_text : SozuPathRule → Text
rule_text (SozuPathRule.prefix v) = v
rule_text (SozuPathRule.regex v) = v

rule_of_text : (r q : SozuPathRule) → (letter r ∷ rule_text r) ≡ (letter q ∷ rule_text q) → r ≡ q
rule_of_text (SozuPathRule.prefix v) (SozuPathRule.prefix w) e = cc
rule_of_text (SozuPathRule.prefix v) (SozuPathRule.regex w) e = ground (arith, e)
rule_of_text (SozuPathRule.regex v) (SozuPathRule.prefix w) e = ground (arith, e)
rule_of_text (SozuPathRule.regex v) (SozuPathRule.regex w) e = cc

kind_of_text :
    (k l : HeaderMatchKind)
    → digit k ≡ digit l
    → (sozu_kind_and_value k).1 ≡ (sozu_kind_and_value l).1
    → k ≡ l
unfolding sozu_kind_and_value
kind_of_text (HeaderMatchKind.exact v) (HeaderMatchKind.exact w) d e = cc
kind_of_text (HeaderMatchKind.exact v) (HeaderMatchKind.regex w) d e = ground (arith, d)
kind_of_text (HeaderMatchKind.regex v) (HeaderMatchKind.exact w) d e = ground (arith, d)
kind_of_text (HeaderMatchKind.regex v) (HeaderMatchKind.regex w) d e = cc

-- No method is spelled like a predicate.
not_method :
    (k : HeaderMatchKind) (method rest tail : Text)
    → contains b':' method ≡ false
    → IsTail tail
    → (b'H' ∷ digit k ∷ b':' ∷ rest) ≢ (method ++ tail)
not_method k [] rest [] h t e = cc
not_method k [] rest (c ∷ tail) h t e = ground (arith, t, e)
not_method k (a ∷ []) rest [] h t e = cc
not_method (HeaderMatchKind.exact v) (a ∷ []) rest (c ∷ tail) h t e = ground (arith, t, e)
not_method (HeaderMatchKind.regex v) (a ∷ []) rest (c ∷ tail) h t e = ground (arith, t, e)
not_method k (a ∷ b ∷ []) rest [] h t e = cc
not_method k (a ∷ b ∷ []) rest (c ∷ tail) h t e = ground (arith, t, e)
not_method k (a ∷ b ∷ c ∷ m) rest tail h t e = ground (arith, h, e)

-- What is relied on of the standard library's formatting: the text of an address has no `;` and
-- tells the address, and a quoted text ends where its own quote does.
pub record IsQuoting (show : Show) : Type 0 where
  pub address_part : (a : SocketAddr) → IsPart (show.address (plain a))
  pub address_told :
      (a b : SocketAddr) → show.address (plain a) ≡ show.address (plain b) → plain a ≡ plain b
  pub quoted : (a b s t : Text) → (show.debug a ++ s) ≡ (show.debug b ++ t) → (a ≡ b) × (s ≡ t)

-- The parts of a frontend that a key spells as they are: none has a `;`, and the method is a token,
-- without `:`.
pub record IsSpelled (f : Frontend) : Type 0 where
  pub host : IsPart f.hostname
  pub rule : IsPart (rule_text (sozu_rule f.path))
  pub method : (m : Text) → f.method ≡ some m → IsPart m × (contains b':' m ≡ false)

-- One route of Sōzu: the same protocol, address, host, rule, method and header conditions.
pub record SameRoute (f g : Frontend) : Type 0 where
  pub tls : f.tls ≡ g.tls
  pub listener : plain f.listener ≡ plain g.listener
  pub hostname : f.hostname ≡ g.hostname
  pub rule : sozu_rule f.path ≡ sozu_rule g.path
  pub method : f.method ≡ g.method
  pub headers : canonical f.header_matches ≡ canonical g.header_matches

module _ (show : Show) (quoting : IsQuoting show) where
  open quoting use {address_part, address_told, quoted}

  predicates : List HeaderMatch → Text
  predicates = flat_map (show_predicate show)

  -- A predicate, with what follows it.
  predicate_text :
      (m : HeaderMatch) (rest : Text)
      → show_predicate show m ++ rest
        ≡ b';'
          ∷ b'H'
          ∷ digit m.kind
          ∷ b':'
          ∷ (show.debug m.name ++ (b'=' ∷ (show.debug (sozu_kind_and_value m.kind).1 ++ rest)))
  unfolding show_predicate show_kind
  predicate_text m rest = by_kind m.kind
    where
      by_kind :
          (k : HeaderMatchKind)
          → show_predicate show (record { name = m.name; kind = k }) ++ rest
            ≡ b';'
              ∷ b'H'
              ∷ digit k
              ∷ b':'
              ∷ (show.debug m.name ++ (b'=' ∷ (show.debug (sozu_kind_and_value k).1 ++ rest)))
      by_kind (HeaderMatchKind.exact v) = simp append_assoc
      by_kind (HeaderMatchKind.regex v) = simp append_assoc

  predicates-IsTail : (ms : List HeaderMatch) → IsTail (predicates ms)
  unfolding predicates
  predicates-IsTail [] = tt
  predicates-IsTail (m ∷ ms) = subst IsTail (sym (predicate_text m (predicates ms))) refl

  -- What follows the kind of a predicate.
  abbrev after_kind : HeaderMatch → Text → Text
  after_kind m rest =
      show.debug m.name ++ (b'=' ∷ (show.debug (sozu_kind_and_value m.kind).1 ++ rest))

  predicate_told :
      (m n : HeaderMatch) (s t : Text)
      → show_predicate show m ++ s ≡ show_predicate show n ++ t
      → (m ≡ n) × (s ≡ t)
  predicate_told m n s t e =
      let f = sym (predicate_text m s) ∙ e ∙ predicate_text n t in
      let kinds : digit m.kind ≡ digit n.kind = cc in
      let texts : after_kind m s ≡ after_kind n t = cc in
      let mv = (sozu_kind_and_value m.kind).1 in
      let nv = (sozu_kind_and_value n.kind).1 in
      let (name, after) =
        quoted m.name n.name (b'=' ∷ (show.debug mv ++ s)) (b'=' ∷ (show.debug nv ++ t)) texts in
      let values : (show.debug mv ++ s) ≡ (show.debug nv ++ t) = cc in
      let (value, rest) = quoted mv nv s t values in
      let kind = kind_of_text m.kind n.kind kinds value in (cc (name, kind), rest)

  predicates_injective : (ms ns : List HeaderMatch) → predicates ms ≡ predicates ns → ms ≡ ns
  unfolding predicates
  predicates_injective [] [] e = refl
  predicates_injective [] (n ∷ ns) e = let f = e ∙ predicate_text n (predicates ns) in cc
  predicates_injective (m ∷ ms) [] e = let f = sym (predicate_text m (predicates ms)) ∙ e in cc
  predicates_injective (m ∷ ms) (n ∷ ns) e =
      let (same, rest) = predicate_told m n (predicates ms) (predicates ns) e in
      cc (same, predicates_injective ms ns rest)

  abbrev IsMethod : Option Text → Type 0
  IsMethod o = (m : Text) → o ≡ some m → IsPart m × (contains b':' m ≡ false)

  method-IsTail :
      (o : Option Text) (ms : List HeaderMatch) → IsTail (show_method o ++ predicates ms)
  unfolding show_method
  method-IsTail none ms = predicates-IsTail ms
  method-IsTail (some m) ms = refl

  -- A method is not taken for a predicate.
  no_method :
      (m : Text) (ms ns : List HeaderMatch)
      → IsMethod (some m)
      → predicates ms ≢ (b';' ∷ m ++ predicates ns)
  unfolding predicates
  no_method m [] ns h e = cc
  no_method m (p ∷ ms) ns h e =
      let f = sym (predicate_text p (predicates ms)) ∙ e in
      let tails : (b'H' ∷ digit p.kind ∷ b':' ∷ after_kind p (predicates ms))
          ≡ (m ++ predicates ns) =
        cc in
      not_method p.kind m (after_kind p (predicates ms)) (predicates ns) (h m refl).1
        (predicates-IsTail ns) tails

  method_told :
      (o q : Option Text) (ms ns : List HeaderMatch)
      → IsMethod o
      → IsMethod q
      → show_method o ++ predicates ms ≡ show_method q ++ predicates ns
      → (o ≡ q) × (ms ≡ ns)
  unfolding show_method
  method_told none none ms ns h k e = (refl, predicates_injective ms ns e)
  method_told none (some q) ms ns h k e = absurd (no_method q ms ns k e)
  method_told (some m) none ms ns h k e = absurd (no_method m ns ms h (sym e))
  method_told (some m) (some q) ms ns h k e =
      let tails : (m ++ predicates ms) ≡ (q ++ predicates ns) = cc in
      let (same, rest) =
        cut m q (predicates ms) (predicates ns) (h m refl).0 (k q refl).0 (predicates-IsTail ms)
          (predicates-IsTail ns) tails in
      (ap some same, predicates_injective ms ns rest)

  -- The text of a key, bracketed from the left to the right.
  abbrev after_host : Frontend → Text
  after_host f =
      (letter (sozu_rule f.path) ∷ rule_text (sozu_rule f.path))
      ++ (show_method f.method ++ predicates (canonical f.header_matches))

  key_text :
      (f : Frontend)
      → (sozu_route_key show f).key
        ≡ show.address (plain f.listener) ++ (b';' ∷ (f.hostname ++ (b';' ∷ after_host f)))
  unfolding sozu_route_key predicates show_rule
  key_text f = by_rule (sozu_rule f.path)
    where
      by_rule :
          (r : SozuPathRule)
          → show.address (plain f.listener)
              ++ b';' ∷ f.hostname
              ++ b';' ∷ show_rule r
              ++ show_method f.method
              ++ flat_map (show_predicate show) (canonical f.header_matches)
            ≡ show.address (plain f.listener)
              ++ (b';'
                  ∷ (f.hostname
                      ++ (b';'
                          ∷ ((letter r ∷ rule_text r)
                              ++ (show_method f.method
                                  ++ flat_map
                                      (show_predicate show)
                                      (canonical f.header_matches))))))
      by_rule (SozuPathRule.prefix v) = simp append_assoc
      by_rule (SozuPathRule.regex v) = simp append_assoc

  rule-IsPart : (r : SozuPathRule) → IsPart (rule_text r) → IsPart (letter r ∷ rule_text r)
  rule-IsPart (SozuPathRule.prefix v) h = ground (arith, h)
  rule-IsPart (SozuPathRule.regex v) h = ground (arith, h)

  after_host_told :
      (f g : Frontend)
      → IsSpelled f
      → IsSpelled g
      → after_host f ≡ after_host g
      → (sozu_rule f.path ≡ sozu_rule g.path)
        × (f.method ≡ g.method)
        × (canonical f.header_matches ≡ canonical g.header_matches)
  after_host_told f g sf sg e =
      let fr = sozu_rule f.path in
      let gr = sozu_rule g.path in
      let fm = canonical f.header_matches in
      let gm = canonical g.header_matches in
      let (rules, rest) =
        cut (letter fr ∷ rule_text fr) (letter gr ∷ rule_text gr)
          (show_method f.method ++ predicates fm) (show_method g.method ++ predicates gm)
          (rule-IsPart fr sf.rule) (rule-IsPart gr sg.rule) (method-IsTail f.method fm)
          (method-IsTail g.method gm) e in
      let (methods, headers) = method_told f.method g.method fm gm sf.method sg.method rest in
      (rule_of_text fr gr rules, methods, headers)

  told :
      (f g : Frontend)
      → IsSpelled f
      → IsSpelled g
      → sozu_route_key show f ≡ sozu_route_key show g
      → SameRoute f g
  unfolding sozu_route_key
  told f g sf sg e =
      let texts = sym (key_text f) ∙ ap (λ (k : SozuRouteKey). k.key) e ∙ key_text g in
      let (at, after) =
        cut (show.address (plain f.listener)) (show.address (plain g.listener))
          (b';' ∷ (f.hostname ++ (b';' ∷ after_host f)))
          (b';' ∷ (g.hostname ++ (b';' ∷ after_host g))) (address_part f.listener)
          (address_part g.listener) refl refl texts in
      let hosts : (f.hostname ++ (b';' ∷ after_host f)) ≡ (g.hostname ++ (b';' ∷ after_host g)) =
        cc in
      let (host, rest) =
        cut f.hostname g.hostname (b';' ∷ after_host f) (b';' ∷ after_host g) sf.host sg.host refl
          refl hosts in
      let (rule, method, headers) = after_host_told f g sf sg (cc rest) in
      record {
        tls = ap (λ (k : SozuRouteKey). k.https) e;
        listener = address_told f.listener g.listener at;
        hostname = host;
        rule = rule;
        method = method;
        headers = headers;
      }

  same_key : (f g : Frontend) → SameRoute f g → sozu_route_key show f ≡ sozu_route_key show g
  unfolding sozu_route_key
  same_key f g s = ground arith

  -- Two frontends whose host, rule and method have no `;`, and whose method has no `:`, have one
  -- route key exactly when they are one route: the same protocol, address, host, rule and method,
  -- and the same header conditions in canonical form. An address is told by its text, which has no
  -- `;`, and a quoted text ends where its quote does.
  pub sozu_route_key-eq_iff :
      (f g : Frontend)
      → IsSpelled f
      → IsSpelled g
      → (sozu_route_key show f ≡ sozu_route_key show g) ↔ SameRoute f g
  sozu_route_key-eq_iff f g sf sg = (told f g sf sg, same_key f g)
