-- ===== src/Host/Domain.antt =====
-- src/utilt.ts: the guards of `isDomain` on dots follow from its test of the labels.
