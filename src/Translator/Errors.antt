-- ===== src/Translator/Errors.antt =====
-- `TranslatorError`, crates/translator/src/lib.rs. A message is kept as what it is formatted from.
use sozu_gateway.Prelude.Texts.{Text}
use sozu_gateway.Ir.{SocketAddr, L4Protocol}
use sozu_gateway.Wire.{Request, StateError}

pub data TranslatorError : Type 0 where
  dispatch : StateError → Request → TranslatorError
  certificate : Text → TranslatorError
  l4_conflict : L4Protocol × SocketAddr → Text → Text → TranslatorError
  unknown_cluster : Text → Text → TranslatorError
