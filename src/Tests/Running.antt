-- ===== src/Tests/Running.antt =====
-- One name that unfolds the whole program, for the runs of the tests.
use cisc468_python.Base.{contains, str_eq, starts_with}
use cisc468_python.Base.Dict.{lookup, insert, erase, values}
use cisc468_python.Json.{find, get, index, is_str, truthy, set_field}
use cisc468_python.Json.Dumps.{dumps, show_nat, show_int}
use cisc468_python.Json.Sorting.{sort_keys}
use cisc468_python.Runtime.{Runtime, py_str}
use cisc468_python.Crypto.Packing.{pack_be, unpack_be, xor_bytes, utf8}
use cisc468_python.Crypto.Base64.{b64e, b64d}
use cisc468_python.Crypto.Identity.{make_identity, sign, fingerprint_from_bytes}
use cisc468_python.Crypto.Session.{derive}
use cisc468_python.Crypto.Chunk.{chunk_nonce, encrypt_chunk, decrypt_chunk}
use cisc468_python.Node.{urandom, uuid4}
use cisc468_python.Storage.Contacts
use cisc468_python.Storage.Shares
use cisc468_python.Protocol.{
  canonical_for_signing, in_signed_types, signature_of, build_envelope_with, build_envelope,
  verify_envelope, send_frame, recv_frame, canonical_manifest,
}
use cisc468_python.Handshake.{
  build_transcript, payload_bytes, send_error, raise_peer_error, check_resp, hello_fields, initiate,
  finish, perform_handshake_initiator, check_init, respond, perform_handshake_responder,
}
use cisc468_python.Server.Contacts.{
  get_contact, raw_pub_bytes, handle_hello, store_contact, handle_contact_request,
  handle_list_files, handle_key_rotate,
}
use cisc468_python.Server.Transfer.{
  total_chunks_of, chunk_at, start_payload, chunk_payload, send_chunks, send_transfer, send_content,
  send_file,
}
use cisc468_python.Server.Session.{
  peer_name, get_share, deny, approve, answer_request, serve_request, handle_file_session,
}
use cisc468_python.Server.Dispatch.{dispatch_env, dispatch, handle_connection}
use cisc468_python.Storage.Received
use cisc468_python.Client.Contacts.{
  connect, is_port, contact_at, required, require_contact, read_cache, write_cache, check_reply,
  keep_contact, accept_reply, request_contact, add_contact,
}
use cisc468_python.Client.Transfer.{
  read_start, manifest_of, meta_of, rounds, key_of, put_chunk, chunk_with, join_chunks, chunk_of,
  recv_chunks, store_content, finish_transfer, recv_content, recv_transfer,
}
use cisc468_python.Client.Requests.{ask, take_transfer, do_request, proxy_download, request_file}
use cisc468_python.Tests.Toy.{toy, sum, toy_open}

unfoldable pub running : Runtime
unfolding contains str_eq starts_with lookup insert erase values find get index is_str truthy
    set_field dumps show_nat show_int sort_keys py_str pack_be unpack_be xor_bytes utf8 b64e b64d
    make_identity sign fingerprint_from_bytes derive chunk_nonce encrypt_chunk decrypt_chunk urandom
    uuid4 Contacts.lower Contacts.find Contacts.get Contacts.contact_fields Contacts.contacts_json
    Contacts.save Contacts.add Contacts.mark_verified Contacts.mark_revoked Contacts.update_address
    Shares.to_public_dict Shares.add Shares.remove Shares.get Shares.public_list
    canonical_for_signing in_signed_types signature_of build_envelope_with build_envelope
    verify_envelope send_frame recv_frame build_transcript payload_bytes send_error raise_peer_error
    check_resp hello_fields initiate finish perform_handshake_initiator check_init respond
    perform_handshake_responder get_contact raw_pub_bytes handle_hello store_contact
    handle_contact_request handle_list_files handle_key_rotate total_chunks_of chunk_at
    start_payload chunk_payload send_chunks send_transfer send_content send_file peer_name get_share
    deny approve answer_request serve_request handle_file_session dispatch_env dispatch
    handle_connection sum toy_open Received.save Received.load connect is_port contact_at required
    require_contact read_cache write_cache check_reply keep_contact accept_reply request_contact
    add_contact read_start manifest_of meta_of rounds key_of put_chunk chunk_with join_chunks
    chunk_of recv_chunks store_content finish_transfer recv_content recv_transfer ask take_transfer
    do_request proxy_download request_file canonical_manifest
running = toy
