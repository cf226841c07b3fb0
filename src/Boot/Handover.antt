-- ===== src/Boot/Handover.antt =====
-- What becomes of the records that are logged before the handshake of agent/cmd/fos-agent/main.go.
