-- ===== src/Graph/Bounds.antt =====
-- The calls on a reader of src/format/cbor_reader.hpp read within their input, and so does what
-- src/format/revision_graph.cpp is made of.
use scpefe.Base.{arith}
use scpefe.Cbor.Safety.{
  >>=-IsSafe, IsSafe, array-IsSafe, boolean_safe, bytes-IsSafe, map-IsSafe, skip_extension-IsSafe,
  text-IsSafe, unsigned_integer-IsSafe,
}
use scpefe.Graph.Closure.{IsClosed}
use scpefe.Graph.Parsing.{captured}

pub IsSafe-IsClosed : IsClosed (λ A m. IsSafe m)
unfolding captured
IsSafe-IsClosed = record {
  returns = λ A a r e. cc;
  fails = λ A x r e. cc;
  binds = λ A B m f h g. >>=-IsSafe m f h g;
  checks = λ A b x m h r e. ground (arith, h r);
  captures = λ A m h r e. ground (arith, h r);
  unsigneds = unsigned_integer-IsSafe;
  booleans = λ r. boolean_safe r.position r.rest;
  texts = text-IsSafe;
  strings = bytes-IsSafe;
  arrays = array-IsSafe;
  maps = map-IsSafe;
  extensions = skip_extension-IsSafe;
}
