-- ===== src/Server/Transfer/Keeps.antt =====
-- Sending a file keeps the invariants that the connection is no part of.
use cisc468_python.Base.{ℕ, zero, suc, Bytes, Str}
use cisc468_python.Base.Keeps.{Keeps, keeps_rules}
use cisc468_python.Runtime.{Runtime}
use cisc468_python.Crypto.Identity.{Identity}
use cisc468_python.Crypto.Session.{SessionKeys}
use cisc468_python.Node.{SharedFile, DiskFile, missing, unreadable, holds, Node}
use cisc468_python.Node.Quiet.{IsQuiet, uuid4-Keeps}
use cisc468_python.Protocol.Quiet.{build_envelope-Keeps, send_frame-Keeps}
use cisc468_python.Handshake.Quiet.{send_error-Keeps}
use cisc468_python.Server.Transfer.{
  send_chunk, send_chunks, send_transfer, send_content, send_found, send_file,
}

module _ {κ} (r : Runtime) (identity : Identity) (session : SessionKeys) (f : SharedFile)
    {P : Node → Type κ} (quiet : IsQuiet P) where
  send_chunk-Keeps :
      (content : Bytes) (total : ℕ) (transfer_id : Str) (idx : ℕ)
      → Keeps P (send_chunk r identity session f content total transfer_id idx)
  unfolding send_chunk
  send_chunk-Keeps content total transfer_id idx =
      search (keeps_rules, build_envelope-Keeps r quiet, send_frame-Keeps quiet) depth 12

  send_chunks-Keeps :
      (content : Bytes) (total : ℕ) (transfer_id : Str) (left idx : ℕ)
      → Keeps P (send_chunks r identity session f content total transfer_id left idx)
  unfolding send_chunks
  send_chunks-Keeps content total transfer_id zero idx = search keeps_rules
  send_chunks-Keeps content total transfer_id (suc left) idx =
      search (keeps_rules, send_chunk-Keeps, send_chunks-Keeps content total transfer_id left) depth
        12

  send_transfer-Keeps :
      (content : Bytes) (total : ℕ) (transfer_id : Str)
      → Keeps P (send_transfer r identity session f content total transfer_id)
  unfolding send_transfer
  send_transfer-Keeps content total transfer_id =
      search (keeps_rules, build_envelope-Keeps r quiet, send_frame-Keeps quiet, send_chunks-Keeps)
        depth 12

  send_content-Keeps : (content : Bytes) → Keeps P (send_content r identity session f content)
  unfolding send_content
  send_content-Keeps content =
      search (keeps_rules, uuid4-Keeps r quiet, send_transfer-Keeps) depth 12

  send_found-Keeps : (found : DiskFile) → Keeps P (send_found r identity session f found)
  unfolding send_found
  send_found-Keeps missing = send_error-Keeps r quiet identity _
  send_found-Keeps (unreadable e) = send_error-Keeps r quiet identity _
  send_found-Keeps (holds content) = send_content-Keeps content

  pub send_file-Keeps : Keeps P (send_file r identity session f)
  unfolding send_file
  send_file-Keeps = record { at = λ n h. (send_found-Keeps (n.disk f.path)).at n h }
