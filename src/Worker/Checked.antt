-- ===== src/Worker/Checked.antt =====
-- A whole round of monitoring: what is due is swept, queued, probed and recorded.
