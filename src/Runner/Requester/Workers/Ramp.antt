-- ===== src/Runner/Requester/Workers/Ramp.antt =====
-- The worker ticker and the requester together: how many workers a step schedule ends with.
